-- ===== src/FilePaths.antt =====
-- Path texts as bytes: `basename` and `dirname` of runner/ptrace/filehandler/fileset.go, and what
-- the code uses of Go's `path`, `path/filepath` and `strings`. Slashes are the only separator.
pub mod Dirname
use go_sandbox.Common.{
  ℕ, zero, suc, ◌+◌, String, Bool, true, false, not, ◌&&◌, ◌||◌, Option, none, some, List, [], ◌∷◌,
  ◌++◌, if◌then◌else◌, ◌==◌, bytes_eq, nat_eq, codes,
}

abbrev pub FilePath : Type 0
FilePath = List ℕ

abbrev pub slash : ℕ
slash = b'/'

abbrev pub is_empty : FilePath → Bool
is_empty [] = true
is_empty (_ ∷ _) = false

-- strings.LastIndex(path, "/"), where `none` stands for -1
unfoldable pub last_index : FilePath → Option ℕ
last_index [] = none
last_index (c ∷ rest) = elim (last_index rest) [
  | some i ↦ some (suc i)
  | none ↦ if c == slash then some 0 else none
]

abbrev pub take : ℕ → FilePath → FilePath
take zero p = []
take (suc n) [] = []
take (suc n) (c ∷ rest) = c ∷ take n rest

unfoldable pub basename : FilePath → FilePath
basename path = elim (last_index path) [ some p ↦ take (p + 1) path | none ↦ path ]

abbrev pub cut : Option ℕ → FilePath → FilePath
cut (some p) path = take p path
cut none path = []

unfoldable pub dirname : FilePath → FilePath
dirname path = cut (last_index path) path

-- path.IsAbs and filepath.IsAbs
abbrev pub is_abs : FilePath → Bool
is_abs [] = false
is_abs (c ∷ _) = c == slash

-- The elements between slashes, the last one given as the reversed bytes read so far.
unfoldable pub split_from : FilePath → FilePath → List FilePath
split_from elem [] = elem ∷ []
split_from elem (c ∷ rest) =
    if c == slash then elem ∷ split_from [] rest else split_from (elem ++ c ∷ []) rest

abbrev dot : FilePath
dot = codes "."

abbrev dot_dot : FilePath
dot_dot = codes ".."

-- ".." removes the element above it, stays where there is none, and is dropped at the root
unfoldable pub clean_up : Bool → List FilePath → List FilePath
clean_up rooted [] = if rooted then [] else dot_dot ∷ []
clean_up rooted (top ∷ out) = if top == dot_dot then dot_dot ∷ top ∷ out else out

-- One pass over the elements; `out` is reversed.
unfoldable pub clean_elems : Bool → List FilePath → List FilePath → List FilePath
unfolding clean_up
clean_elems rooted out [] = out
clean_elems rooted out (e ∷ es) =
    clean_elems rooted
      (if is_empty e || (e == dot)
        then out
        else if e == dot_dot
        then clean_up rooted out
        else e ∷ out)
      es

unfoldable pub join_reversed : List FilePath → FilePath → FilePath
join_reversed [] acc = acc
join_reversed (e ∷ es) acc = join_reversed es (if is_empty acc then e else e ++ slash ∷ acc)

-- path.Clean
unfoldable pub clean : FilePath → FilePath
unfolding split_from clean_elems join_reversed
clean path =
    let rooted = is_abs path in
    let body = join_reversed (clean_elems rooted [] (split_from [] path)) [] in
    if rooted then slash ∷ body else if is_empty body then dot else body

-- path.Join of two elements: empty ones are ignored
unfoldable pub join : FilePath → FilePath → FilePath
unfolding clean
join [] [] = []
join [] b = clean b
join a [] = clean a
join a b = clean (a ++ slash ∷ b)
