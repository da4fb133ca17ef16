-- ===== src/FilePaths/Dirname.antt =====
-- `dirname` shortens every path, so the loops over parent directories end.
use go_sandbox.Common.{
  ℕ, zero, suc, ◌<◌, ◌≤◌, ◌≡◌, refl, Option, none, some, [], ◌∷◌, arith, length,
}
use go_sandbox.FilePaths.{FilePath, last_index, take, cut, dirname}

last_index-lt-length : (path : FilePath) (p : ℕ) → last_index path ≡ some p → p < length path
unfolding last_index
last_index-lt-length [] p h = ground arith
last_index-lt-length (c ∷ rest) zero h = ground arith
last_index-lt-length (c ∷ rest) (suc p) h = ground (arith, last_index-lt-length rest p)

length-take-le : (n : ℕ) (path : FilePath) → length (take n path) ≤ n
length-take-le zero path = omega arith
length-take-le (suc n) [] = omega arith
length-take-le (suc n) (c ∷ rest) = omega (arith, length-take-le n rest)

dirname_short :
    (path : FilePath) (o : Option ℕ)
    → last_index path ≡ o
    → 0 < length path
    → length (cut o path) < length path
dirname_short path none e h = omega arith
dirname_short path (some p) e h =
    omega (arith, length-take-le p path, last_index-lt-length path p e)

pub length-dirname_lt : (path : FilePath) → 0 < length path → length (dirname path) < length path
unfolding dirname
length-dirname_lt path h = dirname_short path (last_index path) refl h
