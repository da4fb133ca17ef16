-- ===== src/Cgroup/Cleanup.antt =====
-- Which directories a build and a removal leave behind.
use go_sandbox.Cgroup.{
  Directories, Paths, Group, remove_path, create_if, clean_up, build_cgroup, Builder, cpuacct,
  then_cpuacct, memory, then_memory, pids, then_pids, create_sub_cgroup_path,
}
use go_sandbox.Common.{
  [], ◌∷◌, Bool, ◌≡◌, is_nil, String, ◌⊎◌, inl, ◌≢◌, ◌||◌, false, not, inr, ◌==◌, nat_eq, ◌&&◌,
  bytes_eq, true, none, subst, refl, arith, sym, Bool-cases, ap, ◌∙◌, bytes_same_iff,
}
use go_sandbox.FilePaths.{FilePath}
use go_sandbox.Ptracer.Events.{value, error}
use go_sandbox.Container.Commands.Answers.{OrError-cases}

-- `present p w` says that `p` is a directory made by TempDir, so none of the base directories, and
-- `vacant p w` that no process has entered `p` and nothing has been made in it. A directory that is
-- created is new, vacant, and has a name. A vacant directory can be removed, and is gone when its
-- removal succeeds; what is answered, a removal leaves the others. A vacant directory stays vacant
-- while others are made and removed.
pub record DirLaws {W : Type 0} (fs : Directories W) (base : Group → FilePath)
    (present vacant : FilePath → W → Bool) : Type 0 where
  pub ensured : (d : FilePath) (w : W) (x : FilePath) → present x (fs.ensure_dir d w) ≡ present x w
  pub created :
      (d : FilePath) (w : W) (p : FilePath)
      → (fs.temp_dir d w).0 ≡ value p
      → (p ≢ [])
        × (present p w ≡ false)
        × (vacant p (fs.temp_dir d w).1 ≡ true)
        × ((x : FilePath) → present x (fs.temp_dir d w).1 ≡ ((x == p) || present x w))
  pub not_created :
      (d : FilePath) (w : W) (e : String)
      → (fs.temp_dir d w).0 ≡ error e
      → (x : FilePath) → present x (fs.temp_dir d w).1 ≡ present x w
  pub removable : (p : FilePath) (w : W) → vacant p w ≡ true → (fs.remove_dir p w).0 ≡ none
  pub removed :
      (p : FilePath) (w : W)
      → (fs.remove_dir p w).0 ≡ none
      → present p (fs.remove_dir p w).1 ≡ false
  pub others :
      (p : FilePath) (w : W) (x : FilePath)
      → (x == p) ≡ false
      → present x (fs.remove_dir p w).1 ≡ present x w
  pub vacant_ensured :
      (g : Group) (w : W) (x : FilePath)
      → vacant x w ≡ true
      → vacant x (fs.ensure_dir (base g) w) ≡ true
  pub vacant_created :
      (g : Group) (w : W) (x : FilePath)
      → vacant x w ≡ true
      → vacant x (fs.temp_dir (base g) w).1 ≡ true
  pub vacant_removed :
      (p : FilePath) (w : W) (x : FilePath)
      → vacant x w ≡ true
      → vacant x (fs.remove_dir p w).1 ≡ true

path-inj : {a b : FilePath} → value a ≡ value b → a ≡ b
path-inj h = cc

value-error : {A : Type 0} {a : A} {e : String} → value a ≢ error e
value-error h = cc

and-swap : (a b c : Bool) → (a && (b && c)) ≡ (b && (a && c))
and-swap a b c = ground arith

module _ {W : Type 0} (fs : Directories W) (base : Group → FilePath)
    (present vacant : FilePath → W → Bool) (law : DirLaws fs base present vacant) where
  -- there is no such sub-cgroup, or it is vacant
  abbrev Free : FilePath → W → Type 0
  Free p w = (is_nil p || vacant p w) ≡ true

  create_if-Free :
      (b : Bool) (g : Group) (w : W) (p : FilePath)
      → (create_if fs base b g w).0 ≡ value p
      → Free p (create_if fs base b g w).1
  unfolding create_if create_sub_cgroup_path
  create_if-Free false g w p e = subst (λ q. Free q w) (path-inj e) refl
  create_if-Free true g w p e =
      let (ne, fresh, v, h) = law.created (base g) (fs.ensure_dir (base g) w) p e in
      ground (arith, v)

  Free-create_if :
      (b : Bool) (g : Group) (w : W) (p : FilePath) → Free p w → Free p (create_if fs base b g w).1
  unfolding create_if create_sub_cgroup_path
  Free-create_if b g w [] f = refl
  Free-create_if false g w (c ∷ cs) f = f
  Free-create_if true g w (c ∷ cs) f =
      law.vacant_created g (fs.ensure_dir (base g) w) (c ∷ cs) (law.vacant_ensured g w (c ∷ cs) f)

  Free-remove_path :
      (q : FilePath) (w : W) (p : FilePath) → Free p w → Free p (remove_path fs q w).1
  unfolding remove_path
  Free-remove_path q w [] f = refl
  Free-remove_path [] w (c ∷ cs) f = f
  Free-remove_path (d ∷ ds) w (c ∷ cs) f = law.vacant_removed (d ∷ ds) w (c ∷ cs) f

  -- `w'` has the directories of `w` and the path `p`, where `p` is not empty, and `w` has not.
  abbrev Adds : FilePath → W → W → Type 0
  Adds p w w' =
      ((p ≡ []) × ((x : FilePath) → present x w' ≡ present x w))
      ⊎ ((p ≢ [])
          × (present p w ≡ false)
          × ((x : FilePath) → present x w' ≡ ((x == p) || present x w)))

  remove_path-present :
      (p : FilePath) (w : W) (x : FilePath)
      → Free p w
      → present x (remove_path fs p w).1 ≡ ((is_nil p || not (x == p)) && present x w)
  unfolding remove_path
  remove_path-present [] w x f = refl
  remove_path-present (c ∷ cs) w x f = elim (Bool-cases (x == c ∷ cs)) [
    | inr b ↦ rw b (law.others (c ∷ cs) w x b)
    | inl b ↦ rw b (
        ap (λ y. present y (fs.remove_dir (c ∷ cs) w).1) ((bytes_same_iff x (c ∷ cs)).0 b)
        ∙ law.removed (c ∷ cs) w (law.removable (c ∷ cs) w f))
  ]

  create_if-Adds :
      (b : Bool) (g : Group) (w : W) (p : FilePath)
      → (create_if fs base b g w).0 ≡ value p
      → Adds p w (create_if fs base b g w).1
  unfolding create_if create_sub_cgroup_path
  create_if-Adds false g w p e = inl (sym (path-inj e), λ x. refl)
  create_if-Adds true g w p e =
      let (ne, fresh, v, h) = law.created (base g) (fs.ensure_dir (base g) w) p e in
      inr (
        ne,
        sym (law.ensured (base g) w p) ∙ fresh,
        λ x. h x ∙ ap (λ r. (x == p) || r) (law.ensured (base g) w x),
      )

  create_if-same :
      (b : Bool) (g : Group) (w : W) (t : String)
      → (create_if fs base b g w).0 ≡ error t
      → (x : FilePath) → present x (create_if fs base b g w).1 ≡ present x w
  unfolding create_if create_sub_cgroup_path
  create_if-same false g w t e x = cc
  create_if-same true g w t e x =
      law.not_created (base g) (fs.ensure_dir (base g) w) t e x ∙ law.ensured (base g) w x

  -- what is added is taken away again
  removed-Adds :
      (p : FilePath) (w w' : W) (x : FilePath)
      → Adds p w w'
      → ((is_nil p || not (x == p)) && present x w') ≡ present x w
  removed-Adds p w w' x (inl (e, h)) = rw (e, h x) refl
  removed-Adds [] w w' x (inr (ne, fresh, h)) = absurd (ne refl)
  removed-Adds (c ∷ cs) w w' x (inr (ne, fresh, h)) = elim (Bool-cases (x == c ∷ cs)) [
    | inl b ↦ rw (h x, b) (sym (ap (λ y. present y w) ((bytes_same_iff x (c ∷ cs)).0 b) ∙ fresh))
    | inr b ↦ rw (h x, b) refl
  ]

  clean_up-present :
      (p : Paths) (w : W) (x : FilePath)
      → Free p.cpuacct_path w
      → Free p.memory_path w
      → Free p.pids_path w
      → present x (clean_up fs p w) ≡ (
          (is_nil p.pids_path || not (x == p.pids_path))
          && ((is_nil p.memory_path || not (x == p.memory_path))
              && ((is_nil p.cpuacct_path || not (x == p.cpuacct_path)) && present x w)))
  unfolding clean_up
  clean_up-present p w x f g h =
      let w1 = (remove_path fs p.cpuacct_path w).1 in
      let w2 = (remove_path fs p.memory_path w1).1 in
      remove_path-present p.pids_path w2 x (
        Free-remove_path p.memory_path w1 p.pids_path
          (Free-remove_path p.cpuacct_path w p.pids_path h))
      ∙ ap (λ b. (is_nil p.pids_path || not (x == p.pids_path)) && b)
          (remove_path-present p.memory_path w1 x
              (Free-remove_path p.cpuacct_path w p.memory_path g)
            ∙ ap (λ b. (is_nil p.memory_path || not (x == p.memory_path)) && b)
                (remove_path-present p.cpuacct_path w x f))

  -- the directories after a failure, where some have been made
  given_up-present :
      (p q : FilePath) (w w1 w2 w3 : W) (x : FilePath)
      → Adds p w w1
      → Adds q w1 w2
      → Free p w3
      → Free q w3
      → present x w3 ≡ present x w2
      → present x (clean_up fs (record { cpuacct_path = p; memory_path = q; pids_path = [] }) w3)
        ≡ present x w
  given_up-present p q w w1 w2 w3 x a b f g h =
      clean_up-present (record { cpuacct_path = p; memory_path = q; pids_path = [] }) w3 x f g refl
      ∙ and-swap (is_nil q || not (x == q)) (is_nil p || not (x == p)) (present x w3)
      ∙ ap (λ y. (is_nil p || not (x == p)) && ((is_nil q || not (x == q)) && y)) h
      ∙ ap (λ y. (is_nil p || not (x == p)) && y) (removed-Adds q w1 w2 x b)
      ∙ removed-Adds p w w1 x a

  none-Adds : (w : W) → Adds [] w w
  none-Adds w = inl (refl, λ x. refl)

  -- A build that fails leaves none of the directories that it made for the group, and removes no other:
  -- they are vacant, so that the removals, whose errors are not looked at, succeed.
  -- The base directories that it may have made stay.
  pub build_cgroup-clean :
      (b : Builder) (w : W) (e : String)
      → (build_cgroup fs base b w).0 ≡ error e
      → (x : FilePath) → present x (build_cgroup fs base b w).1 ≡ present x w
  unfolding build_cgroup
  build_cgroup-clean b w e h x =
      let c = create_if fs base b.with_cpuacct cpuacct w in
      elim (OrError-cases c.0) [
        | inr (t, g) ↦
            rw (g, then_cpuacct)
              (given_up-present [] [] w w w c.1 x (none-Adds w) (none-Adds w) refl refl
                (create_if-same b.with_cpuacct cpuacct w t g x))
        | inl (p, g) ↦
            let d = create_if fs base b.with_memory memory c.1 in
            elim (OrError-cases d.0) [
              | inr (t, g') ↦
                  rw (g, g', then_cpuacct, then_memory)
                    (given_up-present p [] w c.1 c.1 d.1 x
                      (create_if-Adds b.with_cpuacct cpuacct w p g) (none-Adds c.1)
                      (Free-create_if b.with_memory memory c.1 p
                        (create_if-Free b.with_cpuacct cpuacct w p g))
                      refl (create_if-same b.with_memory memory c.1 t g' x))
              | inl (q, g') ↦
                  let f = create_if fs base b.with_pids pids d.1 in
                  elim (OrError-cases f.0) [
                    | inr (t, g'') ↦
                        rw (g, g', g'', then_cpuacct, then_memory, then_pids)
                          (given_up-present p q w c.1 d.1 f.1 x
                            (create_if-Adds b.with_cpuacct cpuacct w p g)
                            (create_if-Adds b.with_memory memory c.1 q g')
                            (Free-create_if b.with_pids pids d.1 p (
                              Free-create_if b.with_memory memory c.1 p
                                (create_if-Free b.with_cpuacct cpuacct w p g)))
                            (Free-create_if b.with_pids pids d.1 q
                              (create_if-Free b.with_memory memory c.1 q g'))
                            (create_if-same b.with_pids pids d.1 t g'' x))
                    | inl (r, g'') ↦
                        absurd
                          (value-error (rw (g, g', g'', then_cpuacct, then_memory, then_pids) at h))
                  ]
            ]
      ]
