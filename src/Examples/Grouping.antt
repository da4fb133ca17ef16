-- ===== src/Examples/Grouping.antt =====
-- A build of sub-cgroups whose last directory cannot be made.
use go_sandbox.Cgroup.{
  Directories, Builder, Group, cpuacct, memory, pids, build_cgroup, create_if, remove_path,
  create_sub_cgroup_path,
}
use go_sandbox.Cgroup.Cleanup.{DirLaws, build_cgroup-clean}
use go_sandbox.Common.{
  none, [], ◌∷◌, List, Bool, if◌then◌else◌, bytes_eq, ◌==◌, ◌≡◌, nat_eq, not, ◌&&◌, arith, ◌||◌,
  false, Bool-cases, inr, inl, sym, same_refl, ◌∙◌, ap, bytes_same_iff, true, String, ◌≢◌, subst,
  refl, ℕ, codes, some,
}
use go_sandbox.FilePaths.{FilePath, clean_up}
use go_sandbox.Ptracer.Events.{OrError, error, value}
use go_sandbox.Common.Explore.{is_member}
use go_sandbox.Cgroup.Access.{get_all_sub_cgroup}
use go_sandbox.Common.Dict.{insert}

abbrev drop_name : FilePath → List FilePath → List FilePath
drop_name n [] = []
drop_name n (m ∷ ms) = if m == n then drop_name n ms else m ∷ drop_name n ms

-- made unless it is there
abbrev make_name : FilePath → List FilePath → OrError FilePath × List FilePath
make_name n w = if is_member n w then (error "exists", w) else (value n, n ∷ w)

abbrev make_below : FilePath → List FilePath → OrError FilePath × List FilePath
make_below [] w = (error "no such hierarchy", w)
make_below (c ∷ cs) w = make_name (c ∷ cs) w

abbrev base_name : Group → FilePath
base_name cpuacct = 99 ∷ []
base_name memory = 109 ∷ []
base_name pids = []

abbrev name_dirs : Directories (List FilePath)
name_dirs = record {
  ensure_dir = λ d w. w;
  temp_dir = make_below;
  remove_dir = λ p w. (none, drop_name p w);
}

abbrev has_name : FilePath → List FilePath → Bool
has_name x w = is_member x w

conflict : true ≢ false
conflict h = ground arith

drop_name-member :
    (n x : FilePath) (w : List FilePath)
    → is_member x (drop_name n w) ≡ (not (x == n) && is_member x w)
drop_name-member n x [] = ground arith
drop_name-member n x (m ∷ ms) = elim (Bool-cases (m == n)) [
  | inl b ↦
      let same : m ≡ n = (bytes_same_iff m n).0 b in
      rw b
        (drop_name-member n x ms ∙ skip (x == n) (x == m) (is_member x ms) (ap (λ y. x == y) same))
  | inr b ↦ rw b (
      combine (x == n) (x == m) (is_member x ms) (is_member x (drop_name n ms))
        (drop_name-member n x ms) (λ c. other ((bytes_same_iff x n).0 c) b))
]
  where
    skip : (a b' r : Bool) → b' ≡ a → (not a && r) ≡ (not a && (b' || r))
    skip a b' r e = ground arith

    other : x ≡ n → (m == n) ≡ false → (x == m) ≡ false
    other q b = elim (Bool-cases (x == m)) [
      | inr f ↦ f
      | inl t ↦
          absurd (
            conflict
              (sym (same_refl m) ∙ ap (λ y. m == y) (sym ((bytes_same_iff x m).0 t) ∙ q) ∙ b))
    ]

    combine :
        (c d r r' : Bool)
        → r' ≡ (not c && r)
        → (c ≡ true → d ≡ false)
        → (d || r') ≡ (not c && (d || r))
    combine true d r r' e k = rw (k refl, e) refl
    combine false d r r' e k = rw e refl

make_name-created :
    (n : FilePath) (w : List FilePath) (p : FilePath)
    → n ≢ []
    → (make_name n w).0 ≡ value p
    → (p ≢ [])
      × (has_name p w ≡ false)
      × ((x : FilePath) → has_name x (make_name n w).1 ≡ ((x == p) || has_name x w))
make_name-created n w p ne e = elim (Bool-cases (is_member n w)) [
  | inl b ↦ absurd (error-value (rw b at e))
  | inr b ↦
      let q : n ≡ p = value-path (rw b at e) in
      subst
        (λ y.
          (y ≢ [])
          × (has_name y w ≡ false)
          × ((x : FilePath) → has_name x (make_name n w).1 ≡ ((x == y) || has_name x w)))
        q (ne, b, λ x. rw b refl)
]
  where
    error-value : {t : String} → error t ≢ value p
    error-value h = cc

    value-path : value n ≡ value p → n ≡ p
    value-path h = cc

make_name-error :
    (n : FilePath) (w : List FilePath) (t : String)
    → (make_name n w).0 ≡ error t
    → (x : FilePath) → has_name x (make_name n w).1 ≡ has_name x w
make_name-error n w t e x = elim (Bool-cases (is_member n w)) [
  | inl b ↦ rw b refl
  | inr b ↦ absurd (value-error (rw b at e))
]
  where
    value-error : value n ≢ error t
    value-error h = cc

name-created :
    (d : FilePath) (w : List FilePath) (p : FilePath)
    → (make_below d w).0 ≡ value p
    → (p ≢ [])
      × (has_name p w ≡ false)
      × ((x : FilePath) → has_name x (make_below d w).1 ≡ ((x == p) || has_name x w))
name-created [] w p e = cc
name-created (c ∷ cs) w p e = make_name-created (c ∷ cs) w p (λ h. ground arith) e

name-error :
    (d : FilePath) (w : List FilePath) (t : String)
    → (make_below d w).0 ≡ error t
    → (x : FilePath) → has_name x (make_below d w).1 ≡ has_name x w
name-error [] w t e x = refl
name-error (c ∷ cs) w t e x = make_name-error (c ∷ cs) w t e x

name-DirLaws : DirLaws name_dirs base_name has_name (λ x w. true)
name-DirLaws = record {
  ensured = λ d w x. refl;
  created = λ d w p e. (let (ne, fresh, h) = name-created d w p e in (ne, fresh, refl, h));
  not_created = name-error;
  removable = λ p w v. refl;
  removed = λ p w e. rw (drop_name-member p p w, same_refl p) refl;
  others = λ p w x ne. rw (drop_name-member p x w, ne) refl;
  vacant_ensured = λ g w x v. refl;
  vacant_created = λ g w x v. refl;
  vacant_removed = λ p w x v. refl;
}

abbrev all_groups : Builder
all_groups = record { with_cpuacct = true; with_memory = true; with_pids = true }

build_cgroup-clean_example :
    has_name (99 ∷ []) (build_cgroup name_dirs base_name all_groups []).1 ≡ false
unfolding build_cgroup create_if create_sub_cgroup_path clean_up remove_path
build_cgroup-clean_example =
    build_cgroup-clean name_dirs base_name has_name (λ x w. true) name-DirLaws all_groups []
      "no such hierarchy" refl (99 ∷ [])

-- one comment, one cgroup that is enabled, one that is not
abbrev cgroups_file : List (List ℕ)
cgroups_file =
    codes "#subsys_name hierarchy num_cgroups enabled"
    ∷ codes "memory 2 90 1"
    ∷ codes "pids  4 95 0"
    ∷ []

found_example :
    get_all_sub_cgroup (value cgroups_file) none ≡ some (value ((codes "memory", true) ∷ []))
unfolding get_all_sub_cgroup insert
found_example = refl

empty_line_example : get_all_sub_cgroup (value (codes "memory 2 90 1" ∷ [] ∷ [])) none ≡ none
unfolding get_all_sub_cgroup
empty_line_example = refl
