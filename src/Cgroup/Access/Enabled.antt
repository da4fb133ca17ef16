-- ===== src/Cgroup/Access/Enabled.antt =====
-- Which cgroups are found.
use go_sandbox.Common.{
  [], ◌∷◌, none, some, false, List, ℕ, Bool, Option, ◌||◌, not, ◌==◌, nat_eq, ◌&&◌, bytes_eq,
}
use go_sandbox.Cgroup.Access.{enabled_name, fields_from}
use go_sandbox.Common.Dict.{Dict}

abbrev names : List ℕ → Option (List ℕ) → Bool
names name none = false
names name (some n) = n == name

-- A line that is no comment enables a name.
unfoldable pub enables : List ℕ → List ℕ → Bool
enables name [] = false
enables name (c ∷ cs) = not (c == 35) && names name (enabled_name (fields_from [] (c ∷ cs)))

abbrev pub any_enables : List ℕ → List (List ℕ) → Bool
any_enables name [] = false
any_enables name (l ∷ ls) = enables name l || any_enables name ls
