-- ===== src/Common/Equality.antt =====
-- Equality tests, as an interface with an instance for each kind of key.
use Prim.Native.Nat.{ℕ}
use Prim.Native.String.{String}
use mathlib.Core.Path.{◌≡◌, refl}
use mathlib.Core.Logic.{◌↔◌}
use mathlib.Core.Bool.{Bool, true, false, ◌&&◌}
use mathlib.Core.List.{List, [], ◌∷◌}
use native.Mathlib.Omega.{arith}
use text.Mathlib.Text.{◌==◌ as str_eq}
use text.Mathlib.TextEquality.{eq_iff}
use go_sandbox.Common.Tests.{nat_beq, nat_beq_iff}

-- `same` decides equality.
pub record Eq {ℓ} (K : Type ℓ) : Type ℓ where
  pub same : K → K → Bool
  pub same_iff : (k j : K) → (same k j ≡ true) ↔ (k ≡ j)

abbrev pub bytes_same : List ℕ → List ℕ → Bool
bytes_same [] [] = true
bytes_same (x ∷ xs) (y ∷ ys) = nat_beq x y && bytes_same xs ys
bytes_same _ _ = false

pub bytes_same_iff : (k j : List ℕ) → (bytes_same k j ≡ true) ↔ (k ≡ j)
bytes_same_iff [] [] = ground arith
bytes_same_iff [] (y ∷ ys) = ground arith
bytes_same_iff (x ∷ xs) [] = ground arith
bytes_same_iff (x ∷ xs) (y ∷ ys) = ground (arith, bytes_same_iff xs ys)

instance abbrev pub bytes_eq : Eq (List ℕ)
bytes_eq = record { same = bytes_same; same_iff = bytes_same_iff }

instance abbrev pub nat_eq : Eq ℕ
nat_eq = record { same_iff = nat_beq_iff; same = nat_beq }

instance abbrev pub string_eq : Eq String
string_eq = record { same_iff = eq_iff; same = str_eq }

module _ {ℓ} {K : Type ℓ} ⦃eq : Eq K⦄ where
  infix 50 ◌==◌
  abbrev pub ◌==◌ : K → K → Bool
  k == j = eq.same k j

  pub same_refl : (k : K) → (k == k) ≡ true
  same_refl k = (eq.same_iff k k).1 refl
