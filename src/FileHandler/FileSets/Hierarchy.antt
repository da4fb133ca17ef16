-- ===== src/FileHandler/FileSets/Hierarchy.antt =====
-- The order of the permissions, and what `add_file_permission` grants.
use go_sandbox.Common.{
  ℕ, zero, suc, ◌<◌, true, Option, some, [], ◌∷◌, length, ◌≡◌, ◌≢◌, refl, arith, Bool-cases, inl,
  inr, or_left, or_middle, or_mono,
}
use go_sandbox.FilePaths.{FilePath, dirname, is_empty}
use go_sandbox.FilePaths.Dirname.{length-dirname_lt}
use go_sandbox.FileHandler.FileSet.{FileSet, is_in_set_smart, add}
use go_sandbox.FileHandler.FileSet.Covered.{parent}
use go_sandbox.FileHandler.FileSet.Grants.{
  IsWithin, IsWithin-refl, IsWithin-trans, add-IsWithin, is_in_set_smart-add, is_in_set_smart_mono,
}
use go_sandbox.FileHandler.FileSets.{
  FileSets, FilePerm, write, read, stat, other, add_parents, add_mode, add_file_permission,
  is_writable_file, is_readable_file, is_statable_file,
}

add_parents-IsWithin :
    (fuel : ℕ) (name : FilePath) (s : FileSet) → IsWithin s (add_parents fuel name s)
unfolding add_parents
add_parents-IsWithin zero name s = IsWithin-refl s
add_parents-IsWithin (suc fuel) name s = elim (Bool-cases (is_empty (dirname name))) [
  | inl a ↦ rw a (IsWithin-refl s)
  | inr a ↦ rw a (
      IsWithin-trans (add-IsWithin s (dirname name))
        (add_parents-IsWithin fuel (dirname name) (add s (dirname name))))
]

is_empty-eq : (p : FilePath) → is_empty p ≡ true → p ≡ []
is_empty-eq [] h = refl
is_empty-eq (c ∷ p) h = cc

parent-empty : (n c : ℕ) (q : FilePath) → parent n [] ≢ some (c ∷ q)
unfolding parent
parent-empty zero c q h = cc
parent-empty (suc n) c q h = cc

parent_round :
    (fuel : ℕ) (name : FilePath) (s : FileSet) (n c : ℕ) (q : FilePath)
    → ((m d : ℕ) (r : FilePath)
        → parent (suc m) (dirname name) ≡ some (d ∷ r)
        → is_in_set_smart (add_parents fuel (dirname name) (add s (dirname name))) (d ∷ r) ≡ true)
    → parent n (dirname name) ≡ some (c ∷ q)
    → is_in_set_smart (add_parents fuel (dirname name) (add s (dirname name))) (c ∷ q) ≡ true
unfolding parent
parent_round fuel name s zero c q ih e =
    let e' : dirname name ≡ c ∷ q = cc in
    rw (← e') (
      is_in_set_smart_mono (add s (dirname name)) _ (dirname name)
        (add_parents-IsWithin fuel (dirname name) (add s (dirname name)))
        (is_in_set_smart-add s (dirname name)))
parent_round fuel name s (suc n) c q ih e = ih n c q e

-- Every parent of the path, at any height, is in the set when the loop has ended.
add_parents-admits :
    (fuel : ℕ) (name : FilePath) (s : FileSet) (n c : ℕ) (q : FilePath)
    → length name < fuel
    → parent (suc n) name ≡ some (c ∷ q)
    → is_in_set_smart (add_parents fuel name s) (c ∷ q) ≡ true
unfolding add_parents parent
add_parents-admits zero name s n c q h e = absurd (omega arith)
add_parents-admits (suc fuel) [] s n c q h e = cc
add_parents-admits (suc fuel) (d ∷ ds) s n c q h e =
    elim (Bool-cases (is_empty (dirname (d ∷ ds)))) [
      | inl a ↦ absurd (parent-empty n c q (rw (is_empty-eq (dirname (d ∷ ds)) a) at e))
      | inr a ↦ rw a (
          parent_round fuel (d ∷ ds) s n c q
            (λ m b r.
              add_parents-admits fuel (dirname (d ∷ ds)) (add s (dirname (d ∷ ds))) m b r
                (omega (arith, length-dirname_lt (d ∷ ds))))
            e)
    ]

module _ (s : FileSets) (name : FilePath) where
  add_mode-IsWithin :
      (mode : FilePerm)
      → IsWithin s.writable (add_mode name mode s).writable
        × IsWithin s.readable (add_mode name mode s).readable
        × IsWithin s.statable (add_mode name mode s).statable
  unfolding add_mode
  add_mode-IsWithin write =
      (add-IsWithin s.writable name, IsWithin-refl s.readable, IsWithin-refl s.statable)
  add_mode-IsWithin read =
      (IsWithin-refl s.writable, add-IsWithin s.readable name, IsWithin-refl s.statable)
  add_mode-IsWithin stat =
      (IsWithin-refl s.writable, IsWithin-refl s.readable, add-IsWithin s.statable name)
  add_mode-IsWithin (other k) =
      (IsWithin-refl s.writable, IsWithin-refl s.readable, IsWithin-refl s.statable)

  soft_ban-add_mode : (mode : FilePerm) → (add_mode name mode s).soft_ban ≡ s.soft_ban
  unfolding add_mode
  soft_ban-add_mode write = refl
  soft_ban-add_mode read = refl
  soft_ban-add_mode stat = refl
  soft_ban-add_mode (other k) = refl

module _ (eval_symlinks : FilePath → Option FilePath) where
  -- The three permissions of a path that the second sets must keep.
  pub record Keeps (s t : FileSets) (p : FilePath) : Type 0 where
    pub writable :
        is_writable_file eval_symlinks s p ≡ true → is_writable_file eval_symlinks t p ≡ true
    pub readable :
        is_readable_file eval_symlinks s p ≡ true → is_readable_file eval_symlinks t p ≡ true
    pub statable :
        is_statable_file eval_symlinks s p ≡ true → is_statable_file eval_symlinks t p ≡ true

  writable_mono :
      (s t : FileSets) (p : FilePath)
      → IsWithin s.writable t.writable
      → is_writable_file eval_symlinks s p ≡ true
      → is_writable_file eval_symlinks t p ≡ true
  unfolding is_writable_file
  writable_mono s t p w =
      or_mono _ _ _ _ (is_in_set_smart_mono _ _ _ w) (is_in_set_smart_mono _ _ _ w)

  readable_mono :
      (s t : FileSets) (p : FilePath)
      → IsWithin s.writable t.writable
      → IsWithin s.readable t.readable
      → is_readable_file eval_symlinks s p ≡ true
      → is_readable_file eval_symlinks t p ≡ true
  unfolding is_readable_file
  readable_mono s t p w r =
      or_mono _ _ _ _ (writable_mono s t p w)
        (or_mono _ _ _ _ (is_in_set_smart_mono _ _ _ r) (is_in_set_smart_mono _ _ _ r))

  statable_mono :
      (s t : FileSets) (p : FilePath)
      → IsWithin s.writable t.writable
      → IsWithin s.readable t.readable
      → IsWithin s.statable t.statable
      → is_statable_file eval_symlinks s p ≡ true
      → is_statable_file eval_symlinks t p ≡ true
  unfolding is_statable_file
  statable_mono s t p w r a =
      or_mono _ _ _ _ (readable_mono s t p w r)
        (or_mono _ _ _ _ (is_in_set_smart_mono _ _ _ a) (is_in_set_smart_mono _ _ _ a))

  -- Adding a permission takes no permission of any path away, and leaves the soft bans alone.
  pub add_file_permission-Keeps :
      (s : FileSets) (name : FilePath) (mode : FilePerm) (p : FilePath)
      → Keeps s (add_file_permission s name mode) p
        × ((add_file_permission s name mode).soft_ban ≡ s.soft_ban)
  unfolding add_file_permission
  add_file_permission-Keeps s name mode p =
      let (w, r, a) = add_mode-IsWithin s name mode in
      let t = add_file_permission s name mode in
      let a' : IsWithin s.statable t.statable =
        IsWithin-trans a
          (add_parents-IsWithin (suc (length name)) name (add_mode name mode s).statable) in
      (
        record {
          writable = writable_mono s t p w;
          readable = readable_mono s t p w r;
          statable = statable_mono s t p w r a';
        },
        soft_ban-add_mode s name mode,
      )

  statable_of_set :
      (s : FileSets) (p : FilePath)
      → is_in_set_smart s.statable p ≡ true
      → is_statable_file eval_symlinks s p ≡ true
  unfolding is_statable_file
  statable_of_set s p h = or_middle _ _ _ h

  -- After a permission for a file, every directory above it, at any height, may be statted, but for the
  -- root: its path is the empty one to dirname, which the code does not add.
  pub add_file_permission-statable :
      (s : FileSets) (name : FilePath) (mode : FilePerm) (n c : ℕ) (q : FilePath)
      → parent (suc n) name ≡ some (c ∷ q)
      → is_statable_file eval_symlinks (add_file_permission s name mode) (c ∷ q) ≡ true
  unfolding add_file_permission
  add_file_permission-statable s name mode n c q e =
      statable_of_set (add_file_permission s name mode) (c ∷ q) (
        add_parents-admits (suc (length name)) name (add_mode name mode s).statable n c q
          (omega arith) e)

  abbrev pub Permits : FilePerm → FileSets → FilePath → Type 0
  Permits write s p = is_writable_file eval_symlinks s p ≡ true
  Permits read s p = is_readable_file eval_symlinks s p ≡ true
  Permits stat s p = is_statable_file eval_symlinks s p ≡ true
  Permits (other _) s p = Unit

  -- The file itself has the permission that was asked for.
  pub add_file_permission-Permits :
      (s : FileSets) (name : FilePath) (mode : FilePerm)
      → Permits mode (add_file_permission s name mode) name
  unfolding add_file_permission add_mode is_writable_file is_readable_file is_statable_file
  add_file_permission-Permits s name write = or_left _ _ (is_in_set_smart-add s.writable name)
  add_file_permission-Permits s name read = or_middle _ _ _ (is_in_set_smart-add s.readable name)
  add_file_permission-Permits s name stat = or_middle _ _ _ (
      is_in_set_smart_mono (add s.statable name) _ name
        (add_parents-IsWithin (suc (length name)) name (add s.statable name))
        (is_in_set_smart-add s.statable name))
  add_file_permission-Permits s name (other k) = tt
