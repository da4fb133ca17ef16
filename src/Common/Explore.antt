-- ===== src/Common/Explore.antt =====
-- A finite system whose states are listed: what a Boolean test finds of the list holds of each state
-- that is reached.
use mathlib.Core.Path.{◌≡◌, sym, ap, ◌∙◌}
use mathlib.Core.Bool.{Bool, true, false, ◌&&◌, ◌||◌}
use mathlib.Core.Logic.{◌⊎◌, ◌↔◌, inl, inr}
use native.Mathlib.Omega.{arith}
use mathlib.Core.List.{List, [], ◌∷◌, ◌++◌}
use Prim.Native.Nat.{ℕ, zero, suc}
use go_sandbox.Common.Equality.{Eq, ◌==◌, same_refl}
use go_sandbox.Common.Tests.{if◌then◌else◌, and_cases, or_cases}

module _ {A : Type 0} where
  abbrev pub Among : A → List A → Type 0
  Among x [] = ⊥
  Among x (y ∷ ys) = (x ≡ y) ⊎ Among x ys

  abbrev pub each : (A → Bool) → List A → Bool
  each p [] = true
  each p (x ∷ xs) = p x && each p xs

  pub each-Among : (p : A → Bool) (xs : List A) (x : A) → each p xs ≡ true → Among x xs → p x ≡ true
  each-Among p (y ∷ ys) x e (inl q) = ap p q ∙ (and_cases (p y) (each p ys) e).0
  each-Among p (y ∷ ys) x e (inr m) = each-Among p ys x (and_cases (p y) (each p ys) e).1 m
  each-Among p [] x e m = elim m [ ]

  pub Among-append : (x : A) (xs ys : List A) → Among x (xs ++ ys) ↔ (Among x xs ⊎ Among x ys)
  Among-append x [] ys = (λ m. inr m, elim [ inr m ↦ m | inl n ↦ elim n [ ] ])
  Among-append x (z ∷ xs) ys = (
    elim [
      | inl e ↦ inl (inl e)
      | inr m ↦ elim ((Among-append x xs ys).0 m) [ inl l ↦ inl (inr l) | inr r ↦ inr r ]
    ],
    elim [
      | inl (inl e) ↦ inl e
      | inl (inr l) ↦ inr ((Among-append x xs ys).1 (inl l))
      | inr r ↦ inr ((Among-append x xs ys).1 (inr r))
    ],
  )

module _ {A : Type 0} ⦃eq : Eq A⦄ where
  abbrev pub is_member : A → List A → Bool
  is_member x [] = false
  is_member x (y ∷ ys) = (x == y) || is_member x ys

  pub is_member-Among : (x : A) (xs : List A) → is_member x xs ≡ true → Among x xs
  is_member-Among x [] e = cc
  is_member-Among x (y ∷ ys) e = elim (or_cases (x == y) (is_member x ys) e) [
    | inl h ↦ inl ((eq.same_iff x y).0 h)
    | inr h ↦ inr (is_member-Among x ys h)
  ]

module _ {A : Type 0} ⦃eq : Eq A⦄ (next : A → List A) where
  -- the list holds all that follows one of its states
  abbrev pub is_closed : List A → Bool
  is_closed table = each (λ s. each (λ t. is_member t table) (next s)) table

  pub is_closed-Among :
      (table : List A) (s t : A)
      → is_closed table ≡ true
      → Among s table
      → Among t (next s)
      → Among t table
  is_closed-Among table s t e m n = is_member-Among t table (
      each-Among (λ u. is_member u table) (next s) t
        (each-Among (λ u. each (λ v. is_member v table) (next u)) table s e m) n)

  abbrev fresh : List A → List A → List A
  fresh seen [] = []
  fresh seen (t ∷ ts) = if is_member t seen then fresh seen ts else t ∷ fresh seen ts

  -- The states that a search finds, with the fuel for so many of them. That it finds all of them is
  -- what `is_closed` tests.
  abbrev pub search_from : ℕ → List A → List A → List A
  search_from zero todo seen = seen
  search_from (suc fuel) [] seen = seen
  search_from (suc fuel) (s ∷ todo) seen =
      let new = fresh seen (next s) in search_from fuel (todo ++ new) (seen ++ new)

-- Equality of values that have codes.
module _ {A B : Type 0} ⦃eq : Eq B⦄ (code : A → B) (value : B → A)
    (back : (a : A) → value (code a) ≡ a) where
  abbrev pub coded_eq : Eq A
  coded_eq = record {
    same = λ a b. code a == code b;
    same_iff = λ a b. (
      λ e. sym (back a) ∙ ap value ((eq.same_iff (code a) (code b)).0 e) ∙ back b,
      λ p. ap (λ x. code a == code x) (sym p) ∙ same_refl (code a),
    );
  }

module _ {A : Type 0} where
  abbrev pub pick : A → List A → ℕ → A
  pick d [] n = d
  pick d (x ∷ xs) zero = x
  pick d (x ∷ xs) (suc n) = pick d xs n

module _ {A : Type 0} ⦃eq : Eq A⦄ where
  abbrev pub list_same : List A → List A → Bool
  list_same [] [] = true
  list_same (x ∷ xs) (y ∷ ys) = (x == y) && list_same xs ys
  list_same _ _ = false

  pub list_same_iff : (k j : List A) → (list_same k j ≡ true) ↔ (k ≡ j)
  list_same_iff [] [] = ground arith
  list_same_iff [] (y ∷ ys) = ground arith
  list_same_iff (x ∷ xs) [] = ground arith
  list_same_iff (x ∷ xs) (y ∷ ys) = ground (arith, list_same_iff xs ys, eq.same_iff x y)

  instance abbrev pub list_eq : Eq (List A)
  list_eq = record { same = list_same; same_iff = list_same_iff }
