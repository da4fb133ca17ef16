-- ===== src/Config/Loader/Cleaned.antt =====
-- What cleanTrace keeps of the two lists of calls.
use go_sandbox.Common.{
  [], ◌∷◌, true, false, String, List, Bool, ℕ, ◌≡◌, how_many, if◌then◌else◌, is_some, arith,
  string_eq, ◌==◌, nat_eq, ◌++◌, refl, ◌||◌, Bool-cases, inl, inr, ◌&&◌, how_many-append, not, ◌∙◌,
  ap,
}
use go_sandbox.Common.Dict.{Dict, lookup, insert, lookup-insert}
use go_sandbox.FileHandler.FileSet.{present}
use go_sandbox.Config.Loader.{keys, mark, mark_others, clean_trace, key_set_to_slice}
use text.Mathlib.TextEquality.{eq_iff}
use go_sandbox.Common.Explore.{is_member}

abbrev pub count : String → List String → ℕ
count x names = how_many (λ y. y == x) names

-- The same names, each as often.
abbrev pub IsArranged : List String → List String → Type 0
IsArranged xs ys = (x : String) → count x ys ≡ count x xs

abbrev pub once : Bool → ℕ
once b = if b then 1 else 0

abbrev is_marked : String → Dict String Bool → Bool
is_marked x m = present (lookup x m)

-- Every key stands once, with the value true.
record IsKeySet (m : Dict String Bool) : Type 0 where
  counted : (x : String) → count x (keys m) ≡ once (is_marked x m)
  marked : (x : String) → is_some (lookup x m) ≡ is_marked x m

nil-IsKeySet : IsKeySet []
unfolding lookup
nil-IsKeySet = record { counted = λ x. refl; marked = λ x. refl }

keys-insert :
    (k : String) (m : Dict String Bool)
    → keys (insert k true m) ≡ (if is_some (lookup k m) then keys m else keys m ++ (k ∷ []))
unfolding insert lookup
keys-insert k [] = refl
keys-insert k ((j, w) ∷ m) = ground (arith, keys-insert k m, eq_iff j k)

is_marked-insert :
    (x k : String) (m : Dict String Bool)
    → is_marked x (insert k true m) ≡ ((k == x) || is_marked x m)
is_marked-insert x k m = rw (lookup-insert k x true m) (ground arith)

count-insert :
    (x k : String) (m : Dict String Bool)
    → IsKeySet m
    → count x (keys (insert k true m)) ≡ once ((k == x) || is_marked x m)
count-insert x k m h = elim (Bool-cases (is_some (lookup k m))) [
  | inl old ↦ rw (keys-insert, old, h.counted x) (ground (arith, eq_iff k x, h.marked k))
  | inr new ↦
      rw (keys-insert, new, how_many-append, h.counted x) (ground (arith, eq_iff k x, h.marked k))
]

insert-IsKeySet : (k : String) (m : Dict String Bool) → IsKeySet m → IsKeySet (insert k true m)
insert-IsKeySet k m h = record {
  counted = λ x. rw (is_marked-insert x k m) (count-insert x k m h);
  marked = λ x. rw (lookup-insert k x true m) (ground (arith, h.marked x));
}

mark-IsKeySet : (names : List String) (m : Dict String Bool) → IsKeySet m → IsKeySet (mark m names)
unfolding mark
mark-IsKeySet [] m h = h
mark-IsKeySet (s ∷ names) m h = mark-IsKeySet names (insert s true m) (insert-IsKeySet s m h)

is_marked-mark :
    (names : List String) (m : Dict String Bool) (x : String)
    → is_marked x (mark m names) ≡ (is_marked x m || is_member x names)
unfolding mark
is_marked-mark [] m x = ground arith
is_marked-mark (s ∷ names) m x =
    rw (is_marked-mark names (insert s true m) x, is_marked-insert x s m)
      (ground (arith, eq_iff s x, eq_iff x s))

module _ (banned : Dict String Bool) where
  mark_others-IsKeySet :
      (names : List String) (m : Dict String Bool)
      → IsKeySet m
      → IsKeySet (mark_others banned m names)
  unfolding mark_others
  mark_others-IsKeySet [] m h = h
  mark_others-IsKeySet (s ∷ names) m h =
      mark_others-IsKeySet names _
        (elim (is_marked s banned) as (λ b. IsKeySet (if b then m else insert s true m)) [
          | true ↦ h
          | false ↦ insert-IsKeySet s m h
        ])

  is_marked-mark_others :
      (names : List String) (m : Dict String Bool) (x : String)
      → is_marked x (mark_others banned m names)
        ≡ (is_marked x m || (is_member x names && not (is_marked x banned)))
  unfolding mark_others
  is_marked-mark_others [] m x = ground arith
  is_marked-mark_others (s ∷ names) m x = elim (Bool-cases (is_marked s banned)) [
    | inl b ↦ rw (b, is_marked-mark_others names m x) (ground (arith, eq_iff x s))
    | inr b ↦
        rw (b, is_marked-mark_others names (insert s true m) x, is_marked-insert x s m)
          (ground (arith, eq_iff s x, eq_iff x s))
  ]

module _ (arrange : List String → List String)
    (arranges : (xs : List String) → IsArranged xs (arrange xs)) (allow trace : List String) where
  -- In whatever order Go visits the maps, cleanTrace returns every traced call once, and every
  -- allowed call that is not traced once among the allowed ones; nothing else is in either list.
  pub clean_trace-count :
      (x : String)
      → (count x (clean_trace arrange allow trace).0
          ≡ once (is_member x allow && not (is_member x trace)))
        × (count x (clean_trace arrange allow trace).1 ≡ once (is_member x trace))
  unfolding clean_trace key_set_to_slice lookup
  clean_trace-count x =
      let traced = mark-IsKeySet trace [] nil-IsKeySet in
      let allowed = mark_others-IsKeySet (mark [] trace) allow [] nil-IsKeySet in
      (
        arranges _ x
            ∙ allowed.counted x
            ∙ ap once (
                is_marked-mark_others (mark [] trace) allow [] x
                ∙ ap (λ b. is_member x allow && not b) (is_marked-mark trace [] x)),
        arranges _ x ∙ traced.counted x ∙ ap once (is_marked-mark trace [] x),
      )
