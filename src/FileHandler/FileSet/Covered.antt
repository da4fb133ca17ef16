-- ===== src/FileHandler/FileSet/Covered.antt =====
-- What `is_in_set_smart` decides, said by the parent directories of a path.
use go_sandbox.Common.{
  ℕ, zero, suc, ◌+◌, ◌<◌, true, false, ◌&&◌, Option, none, some, [], ◌∷◌, ◌++◌, ◌==◌, bytes_eq,
  bytes_same_iff, nat_eq, nat_beq_iff, length, ◌≡◌, ◌↔◌, inl, inr, refl, ap, arith, Bool-cases,
  and_cases, subst,
}
use go_sandbox.FilePaths.{FilePath, dirname}
use go_sandbox.FilePaths.Dirname.{length-dirname_lt}
use go_sandbox.FileHandler.FileSet.{
  FileSet, root, root_star, has, LoopExit, found, ended, smart_loop, after_loop, is_in_set_smart,
}

-- `parent n p`: the path that is reached from `p` by `n` steps to the parent, each from a nonempty one
unfoldable pub parent : ℕ → FilePath → Option FilePath
parent zero p = some p
parent (suc n) [] = none
parent (suc n) (c ∷ cs) = parent n (dirname (c ∷ cs))

-- The ways in which a file set admits a path.
pub data Covered (s : FileSet) (p : FilePath) : Type 0 where
  exact : has s p ≡ true → Covered s p
  at_root : p ≡ root → s.system_root ≡ true → Covered s p
  below :
      (n c : ℕ) (q : FilePath)
      → parent n p ≡ some (c ∷ q)
      → has s (c ∷ q ++ root) ≡ true
      → Covered s p
  child :
      (c : ℕ) (q : FilePath)
      → parent 1 p ≡ some (c ∷ q)
      → has s (c ∷ q ++ root_star) ≡ true
      → Covered s p
  root_child : parent 1 p ≡ some [] → has s root_star ≡ true → Covered s p
  everything : has s root ≡ true → Covered s p

-- The fuel of the loop suffices: each round shortens the path.
pub smart_loop_total :
    (fuel : ℕ) (s : FileSet) (level : ℕ) (name : FilePath)
    → length name < fuel
    → (e : LoopExit) × (smart_loop fuel s level name ≡ some e)
unfolding smart_loop
smart_loop_total zero s level name h = absurd (omega arith)
smart_loop_total (suc fuel) s level [] h = (ended level, refl)
smart_loop_total (suc fuel) s level (c ∷ cs) h =
    let rest =
      smart_loop_total fuel s (suc level) (dirname (c ∷ cs))
        (omega (arith, length-dirname_lt (c ∷ cs))) in
    elim (Bool-cases ((level == 1) && has s (c ∷ cs ++ root_star))) [
      | inl a ↦ (found, rw a)
      | inr a ↦ elim (Bool-cases (has s (c ∷ cs ++ root))) [
        | inl b ↦ (found, rw (a, b))
        | inr b ↦ (rest.0, rw (a, b) (rest.1))
      ]
    ]

-- What the loop looks for from `name` on, at a level.
data Admits (s : FileSet) (level : ℕ) (name : FilePath) : Type 0 where
  at :
      (n c : ℕ) (q : FilePath)
      → parent n name ≡ some (c ∷ q)
      → has s (c ∷ q ++ root) ≡ true
      → Admits s level name
  star :
      (n c : ℕ) (q : FilePath)
      → level + n ≡ 1
      → parent n name ≡ some (c ∷ q)
      → has s (c ∷ q ++ root_star) ≡ true
      → Admits s level name

module _ (s : FileSet) (level c : ℕ) (cs : FilePath) where
  up : Admits s (suc level) (dirname (c ∷ cs)) → Admits s level (c ∷ cs)
  unfolding parent
  up (at n d q e h) = at (suc n) d q e h
  up (star n d q l e h) = star (suc n) d q (omega arith) e h

  down :
      ((level == 1) && has s (c ∷ cs ++ root_star)) ≡ false
      → has s (c ∷ cs ++ root) ≡ false
      → Admits s level (c ∷ cs)
      → Admits s (suc level) (dirname (c ∷ cs))
  unfolding parent
  down a b (at zero d q e h) = cc
  down a b (at (suc n) d q e h) = at n d q e h
  down a b (star zero d q l e h) = absurd (ground arith)
  down a b (star (suc n) d q l e h) = star n d q (omega arith) e h

abbrev LoopSpec : FileSet → ℕ → FilePath → LoopExit → Type 0
LoopSpec s level name found = Admits s level name
LoopSpec s level name (ended k) =
    (¬ Admits s level name) × ((n : ℕ) × (k ≡ level + n) × (parent n name ≡ some []))

module _ {s : FileSet} {level : ℕ} where
  no-Admits_empty : ¬ Admits s level []
  unfolding parent
  no-Admits_empty (at zero c q e h) = cc
  no-Admits_empty (at (suc n) c q e h) = cc
  no-Admits_empty (star zero c q l e h) = cc
  no-Admits_empty (star (suc n) c q l e h) = cc

  LoopSpec-found :
      (name : FilePath) (x : LoopExit)
      → some found ≡ some x
      → Admits s level name
      → LoopSpec s level name x
  LoopSpec-found name found e a = a
  LoopSpec-found name (ended k) e a = cc

LoopSpec-step :
    (s : FileSet) (level c : ℕ) (cs : FilePath) (x : LoopExit)
    → ((level == 1) && has s (c ∷ cs ++ root_star)) ≡ false
    → has s (c ∷ cs ++ root) ≡ false
    → LoopSpec s (suc level) (dirname (c ∷ cs)) x
    → LoopSpec s level (c ∷ cs) x
unfolding parent
LoopSpec-step s level c cs found a b r = up s level c cs r
LoopSpec-step s level c cs (ended k) a b r =
    (λ m. r.0 (down s level c cs a b m), (suc r.1.0, omega (arith, r.1.1), r.1.2))

loop_spec :
    (fuel : ℕ) (s : FileSet) (level : ℕ) (name : FilePath) (x : LoopExit)
    → smart_loop fuel s level name ≡ some x
    → LoopSpec s level name x
unfolding smart_loop parent
loop_spec zero s level name x h = cc
loop_spec (suc fuel) s level [] found h = cc
loop_spec (suc fuel) s level [] (ended k) h = (λ a. no-Admits_empty a, (0, ground arith, refl))
loop_spec (suc fuel) s level (c ∷ cs) x h =
    elim (Bool-cases ((level == 1) && has s (c ∷ cs ++ root_star))) [
      | inl a ↦
          let (one, star_in) = and_cases (level == 1) (has s (c ∷ cs ++ root_star)) a in
          let one' : level ≡ 1 = (nat_beq_iff level 1).0 one in
          LoopSpec-found _ x (rw a at h) (star 0 c cs (omega arith) refl star_in)
      | inr a ↦ elim (Bool-cases (has s (c ∷ cs ++ root))) [
        | inl b ↦ LoopSpec-found _ x (rw (a, b) at h) (at 0 c cs refl b)
        | inr b ↦
            LoopSpec-step s level c cs x a b
              (loop_spec fuel s (suc level) (dirname (c ∷ cs)) x (rw (a, b) at h))
      ]
    ]

parent_unique : (m n : ℕ) (p : FilePath) → parent m p ≡ some [] → parent n p ≡ some [] → m ≡ n
unfolding parent
parent_unique zero zero p h k = refl
parent_unique (suc m) (suc n) [] h k = cc
parent_unique (suc m) (suc n) (c ∷ cs) h k = ap suc (parent_unique m n (dirname (c ∷ cs)) h k)
parent_unique zero (suc n) [] h k = cc
parent_unique zero (suc n) (c ∷ cs) h k = cc
parent_unique (suc m) zero [] h k = cc
parent_unique (suc m) zero (c ∷ cs) h k = cc

Covered-Admits : (s : FileSet) (p : FilePath) → Admits s 0 p → Covered s p
Covered-Admits s p (at n c q e h) = below n c q e h
Covered-Admits s p (star n c q l e h) =
    child c q (subst (λ k. parent k p ≡ some (c ∷ q)) (let l' : n ≡ 1 = omega arith in l') e) h

-- The tests before and behind the loop, at the exit of the loop.
after_loop-Covered :
    (s : FileSet) (p : FilePath) (x : LoopExit)
    → LoopSpec s 0 p x
    → after_loop s (some x) ≡ true
    → Covered s p
after_loop-Covered s p found r h = Covered-Admits s p r
after_loop-Covered s p (ended k) r h = elim (Bool-cases ((k == 1) && has s root_star)) [
  | inl a ↦
      let (one, star_in) = and_cases (k == 1) (has s root_star) a in
      let one' : k ≡ 1 = (nat_beq_iff k 1).0 one in
      let n-one : r.1.0 ≡ 1 = omega (arith, r.1.1) in
      root_child (subst (λ n. parent n p ≡ some []) n-one r.1.2) star_in
  | inr a ↦ elim (Bool-cases (has s root)) [ inl b ↦ everything b | inr b ↦ absurd (ground arith) ]
]

Covered-after_loop :
    (s : FileSet) (p : FilePath) (x : LoopExit)
    → LoopSpec s 0 p x
    → has s p ≡ false
    → ((p == root) && s.system_root) ≡ false
    → Covered s p
    → after_loop s (some x) ≡ true
Covered-after_loop s p found r a b c = refl
Covered-after_loop s p (ended k) r a b (exact h) = cc
Covered-after_loop s p (ended k) r a b (at_root e h) = ground (arith, bytes_same_iff p root)
Covered-after_loop s p (ended k) r a b (below n c q e h) = absurd (r.0 (at n c q e h))
Covered-after_loop s p (ended k) r a b (child c q e h) = absurd (r.0 (star 1 c q refl e h))
Covered-after_loop s p (ended k) r a b (root_child e h) =
    ground (arith, nat_beq_iff k 1, r.1.1, parent_unique r.1.0 1 p r.1.2 e)
Covered-after_loop s p (ended k) r a b (everything h) = ground arith

module _ (s : FileSet) (p : FilePath) where
  -- `is_in_set_smart` answers true exactly for the paths that the set covers.
  pub is_in_set_smart-Covered : (is_in_set_smart s p ≡ true) ↔ Covered s p
  unfolding is_in_set_smart
  is_in_set_smart-Covered =
      let (x, e) = smart_loop_total (suc (length p)) s 0 p (omega arith) in
      let spec : LoopSpec s 0 p x = loop_spec (suc (length p)) s 0 p x e in
      elim (Bool-cases (has s p)) [
        | inl a ↦ (λ _. exact a, λ _. rw a)
        | inr a ↦ elim (Bool-cases ((p == root) && s.system_root)) [
          | inl b ↦
              let (rooted, sys) = and_cases (p == root) s.system_root b in
              (λ _. at_root ((bytes_same_iff p root).0 rooted) sys, λ _. rw (a, b))
          | inr b ↦ (
            λ h. after_loop-Covered s p x spec (rw (a, b, e) at h),
            λ c. rw (a, b, e) (Covered-after_loop s p x spec a b c),
          )
        ]
      ]
