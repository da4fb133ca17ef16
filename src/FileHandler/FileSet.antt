-- ===== src/FileHandler/FileSet.antt =====
-- FileSet of runner/ptrace/filehandler/fileset.go.
pub mod Covered
pub mod Grants
pub mod Union
use go_sandbox.Common.{
  ℕ, zero, suc, ◌+◌, Bool, true, false, ◌&&◌, ◌||◌, Option, none, some, List, [], ◌∷◌, ◌++◌,
  if◌then◌else◌, ◌==◌, bytes_eq, nat_eq, codes, length,
}
use go_sandbox.Common.Dict.{Dict, lookup, insert}
use go_sandbox.FilePaths.{FilePath, slash, dirname, is_abs, join}

pub record FileSet : Type 0 where
  pub set : Dict FilePath Bool
  pub system_root : Bool

abbrev pub new_file_set : FileSet
new_file_set = record { set = []; system_root = false }

abbrev pub root : FilePath
root = slash ∷ []

abbrev pub root_star : FilePath
root_star = codes "/*"

abbrev pub present : Option Bool → Bool
present (some b) = b
present none = false

-- `s.Set[name]`: a missing key reads as false
unfoldable pub has : FileSet → FilePath → Bool
has s name = present (lookup name s.set)

-- How the loop of `IsInSetSmart` ends: inside it, or at the empty name with the level reached.
pub data LoopExit : Type 0 where
  found : LoopExit
  ended : ℕ → LoopExit

-- for level = 0; name != ""; level++ { … }; `none` means that the fuel ran out
unfoldable pub smart_loop : ℕ → FileSet → ℕ → FilePath → Option LoopExit
smart_loop zero s level name = none
smart_loop (suc fuel) s level [] = some (ended level)
smart_loop (suc fuel) s level (c ∷ cs) =
    let name = c ∷ cs in
    let rest = smart_loop fuel s (suc level) (dirname name) in
    if (level == 1) && has s (name ++ root_star)
    then some found
    else if has s (name ++ root)
    then some found
    else rest

-- The tests behind the loop. Running out of fuel is excluded by `smart_loop_total`.
abbrev pub after_loop : FileSet → Option LoopExit → Bool
after_loop s none = false
after_loop s (some found) = true
after_loop s (some (ended level)) =
    if (level == 1) && has s root_star then true else if has s root then true else false

unfoldable pub is_in_set_smart : FileSet → FilePath → Bool
is_in_set_smart s name =
    if has s name
    then true
    else if (name == root) && s.system_root
    then true
    else after_loop s (smart_loop (suc (length name)) s 0 name)

unfoldable pub add : FileSet → FilePath → FileSet
add s name =
    if name == root
    then record s { system_root = true }
    else record s { set = insert name true s.set }

-- One round of the loop of `AddRange`.
unfoldable pub add_range_one : FilePath → FileSet → FilePath → FileSet
add_range_one work_path s n =
    if is_abs n
    then (if n == root
        then record s { system_root = true }
        else record s { set = insert n true s.set })
    else record s { set = insert (join work_path n ++ root) true s.set }

unfoldable pub add_range : FileSet → List FilePath → FilePath → FileSet
unfolding add_range_one
add_range s [] work_path = s
add_range s (n ∷ names) work_path = add_range (add_range_one work_path s n) names work_path
