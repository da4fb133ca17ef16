-- ===== src/FileHandler/SyscallCounter/Budget.antt =====
-- How many calls a counter allows.
use go_sandbox.Common.{
  ℕ, suc, ◌+◌, ◌<◌, ◌^◌, String, true, some, List, [], ◌∷◌, if◌then◌else◌, ◌==◌, string_eq, ltb,
  ◌≡◌, arith, Option-cases, inl, inr, ap, sym, ◌∙◌,
}
use native.Mathlib.Nat.{add-zero, zero-add}
use text.Mathlib.TextEquality.{eq_iff}
use go_sandbox.Common.Dict.{lookup, lookup-insert}
use go_sandbox.Common.Int.{pos, sub_ℕ}
use go_sandbox.FileHandler.SyscallCounter.{SyscallCounter, check, pred_int64}

-- The counter behind a sequence of checks.
unfoldable pub check_all : SyscallCounter → List String → SyscallCounter
check_all s [] = s
check_all s (name ∷ names) = check_all (check s name).counter names

unfoldable pub occurrences : String → List String → ℕ
occurrences name [] = 0
occurrences name (x ∷ xs) = (if x == name then 1 else 0) + occurrences name xs

pred_int64-sub_ℕ : (a b : ℕ) → b < 2 ^ 63 → pred_int64 (sub_ℕ a b) ≡ sub_ℕ a (suc b)
unfolding pred_int64
pred_int64-sub_ℕ a b h = ground arith

sub_ℕ-zero : (n : ℕ) → sub_ℕ n 0 ≡ pos n
sub_ℕ-zero n = ground arith

lookup-check :
    (s : SyscallCounter) (x name : String) (a b : ℕ)
    → b < 2 ^ 63
    → lookup name s ≡ some (sub_ℕ a b)
    → lookup name (check s x).counter ≡ some (sub_ℕ a ((if x == name then 1 else 0) + b))
unfolding check
lookup-check s x name a b small h = elim (Option-cases (lookup x s)) [
  | inl e ↦ rw e (ground (arith, eq_iff x name))
  | inr (m, e) ↦ rw e (rw lookup-insert (ground (arith, eq_iff x name, pred_int64-sub_ℕ a b)))
]

count_shift :
    (x name : String) (xs : List String) (b : ℕ)
    → occurrences name (x ∷ xs) + b ≡ occurrences name xs + ((if x == name then 1 else 0) + b)
unfolding occurrences
count_shift x name xs b = omega arith

lookup-check_all :
    (s : SyscallCounter) (name : String) (names : List String) (a b : ℕ)
    → occurrences name names + b < 2 ^ 63
    → lookup name s ≡ some (sub_ℕ a b)
    → lookup name (check_all s names) ≡ some (sub_ℕ a (occurrences name names + b))
unfolding check_all occurrences
lookup-check_all s name [] a b small h = rw zero-add h
lookup-check_all s name (x ∷ xs) a b small h =
    let step = lookup-check s x name a b (omega arith) h in
    rw (count_shift x name xs b) (
      lookup-check_all (check s x).counter name xs a ((if x == name then 1 else 0) + b)
        (omega (arith, count_shift x name xs b)) step)

-- A counter that starts at `n` allows the calls of its name up to the one before the `n`th, and
-- whatever other calls come between.
pub check_budget :
    (s : SyscallCounter) (name : String) (n : ℕ) (before : List String)
    → lookup name s ≡ some (pos n)
    → occurrences name before < 2 ^ 62
    → ((check (check_all s before) name).inside ≡ true)
      × ((check (check_all s before) name).allow ≡ ltb (occurrences name before + 1) n)
unfolding check
check_budget s name n before h small =
    let k = occurrences name before in
    let now : lookup name (check_all s before) ≡ some (sub_ℕ n k) =
      rw (add-zero k) at
        (lookup-check_all s name before n 0 (omega arith) (h ∙ ap some (sym (sub_ℕ-zero n)))) in
    rw now (ground arith)
