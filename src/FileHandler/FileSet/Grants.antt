-- ===== src/FileHandler/FileSet/Grants.antt =====
-- What `add` and `add_range` grant, and that they take nothing away.
use go_sandbox.Common.{true, ◌==◌, bytes_eq, bytes_same_iff, ◌≡◌, inl, inr, refl, arith, Bool-cases}
use go_sandbox.Common.Dict.{insert, lookup-insert}
use go_sandbox.FilePaths.{FilePath}
use go_sandbox.FileHandler.FileSet.{FileSet, root, has, is_in_set_smart, add}
use go_sandbox.FileHandler.FileSet.Covered.{
  Covered, exact, at_root, below, child, root_child, everything, is_in_set_smart-Covered,
}

-- Every entry of the first set is in the second.
pub record IsWithin (s t : FileSet) : Type 0 where
  pub entries : (p : FilePath) → has s p ≡ true → has t p ≡ true
  pub system : s.system_root ≡ true → t.system_root ≡ true

Covered-mono : {s t : FileSet} (p : FilePath) → IsWithin s t → Covered s p → Covered t p
Covered-mono p w (exact h) = exact (w.entries p h)
Covered-mono p w (at_root e h) = at_root e (w.system h)
Covered-mono p w (below n c q e h) = below n c q e (w.entries _ h)
Covered-mono p w (child c q e h) = child c q e (w.entries _ h)
Covered-mono p w (root_child e h) = root_child e (w.entries _ h)
Covered-mono p w (everything h) = everything (w.entries _ h)

-- A larger set admits at least as many paths.
pub is_in_set_smart_mono :
    (s t : FileSet) (p : FilePath)
    → IsWithin s t
    → is_in_set_smart s p ≡ true
    → is_in_set_smart t p ≡ true
is_in_set_smart_mono s t p w h =
    (is_in_set_smart-Covered t p).1 (Covered-mono p w ((is_in_set_smart-Covered s p).0 h))

pub IsWithin-refl : (s : FileSet) → IsWithin s s
IsWithin-refl s = record { entries = λ p h. h; system = λ h. h }

pub IsWithin-trans : {s t u : FileSet} → IsWithin s t → IsWithin t u → IsWithin s u
IsWithin-trans v w = record {
  entries = λ p h. w.entries p (v.entries p h);
  system = λ h. w.system (v.system h);
}

has-insert :
    (s : FileSet) (k p : FilePath)
    → has s p ≡ true
    → has (record s { set = insert k true s.set }) p ≡ true
unfolding has
has-insert s k p h = rw lookup-insert (ground (arith, bytes_same_iff k p))

has-insert_self :
    (s : FileSet) (k : FilePath) → has (record s { set = insert k true s.set }) k ≡ true
unfolding has
has-insert_self s k = rw lookup-insert (ground (arith, bytes_same_iff k k))

insert-IsWithin : (s : FileSet) (k : FilePath) → IsWithin s (record s { set = insert k true s.set })
insert-IsWithin s k = record { entries = has-insert s k; system = λ h. h }

pub add-IsWithin : (s : FileSet) (k : FilePath) → IsWithin s (add s k)
unfolding add has
add-IsWithin s k = elim (Bool-cases (k == root)) [
  | inl a ↦ rw a (record { entries = λ p h. h; system = λ h. refl })
  | inr a ↦ rw a (insert-IsWithin s k)
]

-- An added path is admitted.
pub is_in_set_smart-add : (s : FileSet) (k : FilePath) → is_in_set_smart (add s k) k ≡ true
unfolding add
is_in_set_smart-add s k = (is_in_set_smart-Covered (add s k) k).1 covered
  where
    covered : Covered (add s k) k
    covered = elim (Bool-cases (k == root)) [
      | inl a ↦ at_root ((bytes_same_iff k root).0 a) (rw a)
      | inr a ↦ exact (rw a (has-insert_self s k))
    ]
