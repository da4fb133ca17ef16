-- ===== src/FileHandler/FileSet/Union.antt =====
-- A file set as the union of what its additions grant, in any order and number.
use go_sandbox.Common.{
  [], ◌∷◌, some, true, List, if◌then◌else◌, ◌++◌, ◌≡◌, ◌==◌, ◌↔◌, nat_eq, ℕ, bytes_eq, ◌⊎◌, inl,
  inr, Bool-cases, bytes_same_iff, refl, ap, sym,
}
use go_sandbox.FilePaths.{FilePath, is_abs, join}
use go_sandbox.FileHandler.FileSet.{
  FileSet, has, add, root, add_range, root_star, add_range_one, new_file_set, is_in_set_smart,
}
use go_sandbox.Common.Dict.{insert, lookup-insert, lookup}
use go_sandbox.FileHandler.FileSet.Covered.{
  parent, Covered, at_root, is_in_set_smart-Covered, exact, below, child, root_child, everything,
}
use go_sandbox.Common.Explore.{Among, Among-append}

-- What one addition gives: the root directory itself, or an entry.
pub data Grant : Type 0 where
  root_itself : Grant
  entry : FilePath → Grant

-- The paths that a grant admits.
pub data Admits (p : FilePath) : Grant → Type 0 where
  the_root : p ≡ root → Admits p root_itself
  same_path : (e : FilePath) → e ≡ p → Admits p (entry e)
  inside :
      (n c : ℕ) (q e : FilePath)
      → parent n p ≡ some (c ∷ q)
      → e ≡ c ∷ q ++ root
      → Admits p (entry e)
  child_of :
      (c : ℕ) (q e : FilePath)
      → parent 1 p ≡ some (c ∷ q)
      → e ≡ c ∷ q ++ root_star
      → Admits p (entry e)
  child_of_root : (e : FilePath) → parent 1 p ≡ some [] → e ≡ root_star → Admits p (entry e)
  anything : (e : FilePath) → e ≡ root → Admits p (entry e)

-- An operation on a file set.
pub data Addition : Type 0 where
  one : FilePath → Addition
  range : List FilePath → FilePath → Addition

abbrev pub grant_of : FilePath → Grant
grant_of name = if name == root then root_itself else entry name

abbrev pub grant_in : FilePath → FilePath → Grant
grant_in work_path n = if is_abs n then grant_of n else entry (join work_path n ++ root)

abbrev pub grants_in : FilePath → List FilePath → List Grant
grants_in work_path [] = []
grants_in work_path (n ∷ names) = grant_in work_path n ∷ grants_in work_path names

abbrev pub grants : List Addition → List Grant
grants [] = []
grants (one name ∷ ops) = grant_of name ∷ grants ops
grants (range names work_path ∷ ops) = grants_in work_path names ++ grants ops

abbrev pub run : List Addition → FileSet → FileSet
run [] s = s
run (one name ∷ ops) s = run ops (add s name)
run (range names work_path ∷ ops) s = run ops (add_range s names work_path)

-- The second set holds what the first one does, and the grants.
pub record Gains (s : FileSet) (gs : List Grant) (t : FileSet) : Type 0 where
  pub entries : (e : FilePath) → (has t e ≡ true) ↔ ((has s e ≡ true) ⊎ Among (entry e) gs)
  pub system : (t.system_root ≡ true) ↔ ((s.system_root ≡ true) ⊎ Among root_itself gs)

or_never : {P Q : Type 0} → ¬ Q → P ↔ (P ⊎ (Q ⊎ ⊥))
or_never never =
    (λ p. inl p, elim [ inl p ↦ p | inr (inl q) ↦ absurd (never q) | inr (inr n) ↦ elim n [ ] ])

Gains-nil : (s : FileSet) → Gains s [] s
Gains-nil s = record {
  entries = λ e. (λ h. inl h, elim [ inl h ↦ h | inr n ↦ elim n [ ] ]);
  system = (λ h. inl h, elim [ inl h ↦ h | inr n ↦ elim n [ ] ]);
}

Gains-system : (s : FileSet) → Gains s (root_itself ∷ []) (record s { system_root = true })
unfolding has
Gains-system s = record {
  entries = λ e. or_never (λ q. cc);
  system = (λ _. inr (inl refl), λ _. refl);
}

has-insert_iff :
    (s : FileSet) (k e : FilePath)
    → (has (record s { set = insert k true s.set }) e ≡ true)
      ↔ ((has s e ≡ true) ⊎ Among (entry e) (entry k ∷ []))
unfolding has
has-insert_iff s k e = elim (Bool-cases (k == e)) [
  | inl same ↦
      let ke = (bytes_same_iff k e).0 same in
      (λ _. inr (inl (ap entry (sym ke))), λ _. rw (lookup-insert k e true s.set, same))
  | inr other ↦
      rw (lookup-insert k e true s.set, other)
        (or_never (λ q. (let ek : e ≡ k = cc in let same = (bytes_same_iff k e).1 (sym ek) in cc)))
]

Gains-entry :
    (s : FileSet) (k : FilePath) → Gains s (entry k ∷ []) (record s { set = insert k true s.set })
Gains-entry s k = record { entries = has-insert_iff s k; system = or_never (λ q. cc) }

then_iff :
    {A P Q R : Type 0} (x : A) (xs ys : List A)
    → Q ↔ (P ⊎ Among x xs)
    → R ↔ (Q ⊎ Among x ys)
    → R ↔ (P ⊎ Among x (xs ++ ys))
then_iff x xs ys f g = (
  λ r. elim (g.0 r) [
    | inr m ↦ inr ((Among-append x xs ys).1 (inr m))
    | inl q ↦ elim (f.0 q) [ inl p ↦ inl p | inr m ↦ inr ((Among-append x xs ys).1 (inl m)) ]
  ],
  elim [
    | inl p ↦ g.1 (inl (f.1 (inl p)))
    | inr m ↦ elim ((Among-append x xs ys).0 m) [
      | inl l ↦ g.1 (inl (f.1 (inr l)))
      | inr r ↦ g.1 (inr r)
    ]
  ],
)

Gains-then :
    {s t u : FileSet} (gs hs : List Grant) → Gains s gs t → Gains t hs u → Gains s (gs ++ hs) u
Gains-then gs hs g h = record {
  entries = λ e. then_iff (entry e) gs hs (g.entries e) (h.entries e);
  system = then_iff root_itself gs hs g.system h.system;
}

add-Gains : (s : FileSet) (name : FilePath) → Gains s (grant_of name ∷ []) (add s name)
unfolding add
add-Gains s name = elim (Bool-cases (name == root)) [
  | inl a ↦ rw a (Gains-system s)
  | inr a ↦ rw a (Gains-entry s name)
]

add_range_one-Gains :
    (work_path : FilePath) (s : FileSet) (n : FilePath)
    → Gains s (grant_in work_path n ∷ []) (add_range_one work_path s n)
unfolding add_range_one
add_range_one-Gains work_path s n = elim (Bool-cases (is_abs n)) [
  | inr b ↦ rw b (Gains-entry s _)
  | inl b ↦ elim (Bool-cases (n == root)) [
    | inl a ↦ rw (b, a) (Gains-system s)
    | inr a ↦ rw (b, a) (Gains-entry s n)
  ]
]

pub add_range-Gains :
    (names : List FilePath) (s : FileSet) (work_path : FilePath)
    → Gains s (grants_in work_path names) (add_range s names work_path)
unfolding add_range
add_range-Gains [] s work_path = Gains-nil s
add_range-Gains (n ∷ names) s work_path =
    Gains-then (grant_in work_path n ∷ []) (grants_in work_path names)
      (add_range_one-Gains work_path s n)
      (add_range-Gains names (add_range_one work_path s n) work_path)

run-Gains : (ops : List Addition) (s : FileSet) → Gains s (grants ops) (run ops s)
run-Gains [] s = Gains-nil s
run-Gains (one name ∷ ops) s =
    Gains-then (grant_of name ∷ []) (grants ops) (add-Gains s name) (run-Gains ops (add s name))
run-Gains (range names work_path ∷ ops) s =
    Gains-then (grants_in work_path names) (grants ops) (add_range-Gains names s work_path)
      (run-Gains ops (add_range s names work_path))

module _ (ops : List Addition) (p : FilePath) where
  entry_in : (e : FilePath) → has (run ops new_file_set) e ≡ true → Among (entry e) (grants ops)
  unfolding has lookup
  entry_in e h = elim (((run-Gains ops new_file_set).entries e).0 h) [ inl n ↦ cc | inr m ↦ m ]

  in_entry : (e : FilePath) → Among (entry e) (grants ops) → has (run ops new_file_set) e ≡ true
  in_entry e m = ((run-Gains ops new_file_set).entries e).1 (inr m)

  root_in : (run ops new_file_set).system_root ≡ true → Among root_itself (grants ops)
  root_in h = elim ((run-Gains ops new_file_set).system.0 h) [ inl n ↦ cc | inr m ↦ m ]

  abbrev pub Granted : Type 0
  Granted = (g : Grant) × Among g (grants ops) × Admits p g

  Covered-Granted : Covered (run ops new_file_set) p → Granted
  Covered-Granted (exact h) = (entry p, entry_in p h, same_path p refl)
  Covered-Granted (at_root e h) = (root_itself, root_in h, the_root e)
  Covered-Granted (below n c q e h) = (entry _, entry_in _ h, inside n c q _ e refl)
  Covered-Granted (child c q e h) = (entry _, entry_in _ h, child_of c q _ e refl)
  Covered-Granted (root_child e h) =
      (entry root_star, entry_in root_star h, child_of_root root_star e refl)
  Covered-Granted (everything h) = (entry root, entry_in root h, anything root refl)

  Granted-Covered :
      (g : Grant) → Among g (grants ops) → Admits p g → Covered (run ops new_file_set) p
  Granted-Covered root_itself m (the_root e) =
      at_root e ((run-Gains ops new_file_set).system.1 (inr m))
  Granted-Covered (entry e) m (same_path d q) = exact (rw q at (in_entry e m))
  Granted-Covered (entry e) m (inside n c q d u v) = below n c q u (rw v at (in_entry e m))
  Granted-Covered (entry e) m (child_of c q d u v) = child c q u (rw v at (in_entry e m))
  Granted-Covered (entry e) m (child_of_root d u v) = root_child u (rw v at (in_entry e m))
  Granted-Covered (entry e) m (anything d v) = everything (rw v at (in_entry e m))

  -- Any sequence of Add and AddRange, from the empty set: IsInSetSmart admits exactly the paths that
  -- one of the additions grants, whatever their order and however often each is made.
  pub is_in_set_smart-run : (is_in_set_smart (run ops new_file_set) p ≡ true) ↔ Granted
  is_in_set_smart-run = (
    λ h. Covered-Granted ((is_in_set_smart-Covered _ p).0 h),
    λ g. (is_in_set_smart-Covered _ p).1 (Granted-Covered g.0 g.1 g.2),
  )
