-- ===== src/ForkExec/Fds/Placement.antt =====
-- Where the two passes put the descriptors. What dup3, fcntl and close do to the table of open files
-- is not part of the repository: it is assumed as documented, for calls that succeed.
use go_sandbox.ForkExec.Calls.{
  ◌>>=◌, Call, Oracle, dup3, goes, clear_cloexec, close, done-subst, bind-Parts, done, call,
  call-goes,
}
use go_sandbox.Common.{
  List, ℕ, Bool, ◌≤◌, ◌<◌, ◌∷◌, arith, suc, ◌⊎◌, ◌≡◌, false, ◌++◌, [], if◌then◌else◌, ◌==◌, ltb,
  ◌∙◌, nat_eq, ◌≢◌, refl, ◌+◌, ltb→ge, true, length, inl, same_refl, inr, Bool-cases, subst,
}
use go_sandbox.ForkExec.Fds.{max_fd, skip_taken, Slots, pass_one, is_taken, is_below, avoid_taken}
use go_sandbox.Common.Int.{ℤ, pos, negsuc}

-- The open file at each descriptor, after the calls made so far.
pub record Descriptors {F : Type 0} (oracle : Oracle) (at : List Call → ℕ → F) : Type 0 where
  pub duplicate :
      (log : List Call) (a b : ℕ) (cloexec : Bool) (x : ℕ)
      → (oracle log (dup3 a b cloexec)).err ≡ 0
      → at (log ++ dup3 a b cloexec ∷ []) x ≡ (if x == b then at log a else at log x)
  pub flag : (log : List Call) (fd x : ℕ) → at (log ++ clear_cloexec fd ∷ []) x ≡ at log x
  pub shut : (log : List Call) (fd x : ℕ) → x ≢ fd → at (log ++ close fd ∷ []) x ≡ at log x

abbrev pub Below : ℕ → List ℤ → Type 0
Below n [] = Unit
Below n (pos f ∷ fs) = (f < n) × Below n fs
Below n (negsuc _ ∷ fs) = Below n fs

pub Below-mono : (m n : ℕ) (fs : List ℤ) → m ≤ n → Below m fs → Below n fs
Below-mono m n [] h b = tt
Below-mono m n (pos f ∷ fs) h b = (omega arith, Below-mono m n fs h b.1)
Below-mono m n (negsuc _ ∷ fs) h b = Below-mono m n fs h b

pub differ : (x n : ℕ) → x ≢ n → (x == n) ≡ false
differ x n h = ground arith

pub max_fd-ge : (n : ℕ) (fs : List ℤ) → n ≤ max_fd n fs
unfolding max_fd
max_fd-ge n [] = omega arith
max_fd-ge n (pos f ∷ fs) = ground (arith, max_fd-ge (if ltb n f then f else n) fs)
max_fd-ge n (negsuc _ ∷ fs) = max_fd-ge n fs

pub max_fd-Below : (n : ℕ) (fs : List ℤ) → Below (suc (max_fd n fs)) fs
unfolding max_fd
max_fd-Below n [] = tt
max_fd-Below n (pos f ∷ fs) = (
  ground (arith, max_fd-ge (if ltb n f then f else n) fs),
  max_fd-Below (if ltb n f then f else n) fs,
)
max_fd-Below n (negsuc _ ∷ fs) = max_fd-Below n fs

skip_taken-free :
    (s : Slots) (n : ℕ) → (n ≤ skip_taken 3 s n) × (is_taken s (skip_taken 3 s n) ≡ false)
unfolding skip_taken
skip_taken-free s n = ground arith

-- The numbers that the first pass must not overwrite.
abbrev Held : Slots → ℕ → Type 0
Held s x = (x < s.nextfd) ⊎ ((x ≡ s.pipe) ⊎ ((0 < s.exec_file) × (x ≡ s.exec_file)))

module _ {F : Type 0} (at : List Call → ℕ → F) where
  -- After the calls `b`, each descriptor of the second list shows the file that its partner showed
  -- after the calls `a`, and none stands below its position.
  abbrev pub Placed : List Call → List Call → ℕ → List ℤ → List ℤ → Type 0
  Placed a b i [] [] = Unit
  Placed a b i (pos f ∷ fs) (pos g ∷ gs) = (i ≤ g) × (at b g ≡ at a f) × Placed a b (suc i) fs gs
  Placed a b i (negsuc f ∷ fs) (negsuc g ∷ gs) = (f ≡ g) × Placed a b (suc i) fs gs
  Placed a b i _ _ = ⊥

  Placed-rebase :
      (a a' b : List Call) (i n : ℕ) (fs gs : List ℤ)
      → Below n fs
      → ((x : ℕ) → x < n → at a x ≡ at a' x)
      → Placed a b i fs gs
      → Placed a' b i fs gs
  Placed-rebase a a' b i n [] [] u k p = tt
  Placed-rebase a a' b i n (pos f ∷ fs) (pos g ∷ gs) u k p =
      (p.0, p.1 ∙ k f u.0, Placed-rebase a a' b (suc i) n fs gs u.1 k p.2)
  Placed-rebase a a' b i n (negsuc f ∷ fs) (negsuc g ∷ gs) u k p =
      (p.0, Placed-rebase a a' b (suc i) n fs gs u k p.1)
  Placed-rebase a a' b i n [] (g ∷ gs) u k p = elim p [ ]
  Placed-rebase a a' b i n (pos f ∷ fs) [] u k p = elim p [ ]
  Placed-rebase a a' b i n (negsuc f ∷ fs) [] u k p = elim p [ ]
  Placed-rebase a a' b i n (pos f ∷ fs) (negsuc g ∷ gs) u k p = elim p [ ]
  Placed-rebase a a' b i n (negsuc f ∷ fs) (pos g ∷ gs) u k p = elim p [ ]

  module _ (oracle : Oracle) (d : Descriptors oracle at) where
    pub record PassedOne (i : ℕ) (fs : List ℤ) (s : Slots) (log : List Call) (v : List ℤ × Slots)
        (log' : List Call) : Type 0 where
      pub placed : Placed log log' i fs v.0
      pub kept : (x : ℕ) → Held s x → at log' x ≡ at log x
      pub pipe : v.1.pipe ≡ s.pipe
      pub exec_file : v.1.exec_file ≡ s.exec_file

    PassedOne-stay :
        (i f : ℕ) (fs : List ℤ) (s : Slots) (log log' : List Call) (w : List ℤ × Slots)
        → f < s.nextfd
        → is_below f i ≡ false
        → PassedOne (suc i) fs s log w log'
        → PassedOne i (pos f ∷ fs) s log (pos f ∷ w.0, w.1) log'
    PassedOne-stay i f fs s log log' w u b ih = record {
      placed = (ltb→ge f i b, ih.kept f (inl u), ih.placed);
      kept = ih.kept;
      pipe = ih.pipe;
      exec_file = ih.exec_file;
    }

    PassedOne-neg :
        (i n : ℕ) (fs : List ℤ) (s : Slots) (log log' : List Call) (w : List ℤ × Slots)
        → PassedOne (suc i) fs s log w log'
        → PassedOne i (negsuc n ∷ fs) s log (negsuc n ∷ w.0, w.1) log'
    PassedOne-neg i n fs s log log' w ih = record {
      placed = (refl, ih.placed);
      kept = ih.kept;
      pipe = ih.pipe;
      exec_file = ih.exec_file;
    }

    -- a number that the skipping has passed over is none of the held ones
    Held-ne : (s : Slots) (x : ℕ) → Held s x → x ≢ (avoid_taken s).nextfd
    Held-ne s x h e = ground (arith, skip_taken-free s s.nextfd)

    Held-next :
        (s : Slots) (x : ℕ) → Held s x → Held (record s { nextfd = suc (avoid_taken s).nextfd }) x
    Held-next s x (inl h) = inl (omega (arith, skip_taken-free s s.nextfd))
    Held-next s x (inr h) = inr h

    PassedOne-move :
        (i f : ℕ) (fs : List ℤ) (s : Slots) (log log' : List Call) (w : List ℤ × Slots)
        → i ≤ (avoid_taken s).nextfd
        → Below s.nextfd (pos f ∷ fs)
        → (oracle log (dup3 f (avoid_taken s).nextfd true)).err ≡ 0
        → PassedOne
            (suc i)
            fs
            (record s { nextfd = suc (avoid_taken s).nextfd })
            (log ++ dup3 f (avoid_taken s).nextfd true ∷ [])
            w
            log'
        → PassedOne i (pos f ∷ fs) s log (pos (avoid_taken s).nextfd ∷ w.0, w.1) log'
    PassedOne-move i f fs s log log' w le u ok ih =
        let n = (avoid_taken s).nextfd in
        let log1 = log ++ dup3 f n true ∷ [] in
        let away : (x : ℕ) → x ≢ n → at log1 x ≡ at log x =
          λ x ne. d.duplicate log f n true x ok ∙ rw (differ x n ne) refl in
        let moved : at log1 n ≡ at log f = d.duplicate log f n true n ok ∙ rw (same_refl n) refl in
        record {
          placed = (
            le,
            ih.kept n (inl (omega arith)) ∙ moved,
            Placed-rebase log1 log log' (suc i) s.nextfd fs w.0 u.1
                (λ x lt. away x (Held-ne s x (inl lt))) ih.placed,
          );
          kept = λ x h. ih.kept x (Held-next s x h) ∙ away x (Held-ne s x h);
          pipe = ih.pipe;
          exec_file = ih.exec_file;
        }

    pub pass_one-PassedOne :
        (i : ℕ) (fs : List ℤ) (s : Slots) (log log' : List Call) (v : List ℤ × Slots)
        → i + length fs ≤ s.nextfd
        → Below s.nextfd fs
        → pass_one oracle i fs s log ≡ (goes v, log')
        → PassedOne i fs s log v log'
    unfolding pass_one
    pass_one-PassedOne i [] s log log' v le u e =
        done-subst (PassedOne i [] s log) ([], s) v log log' e
          (record { placed = tt; kept = λ x h. refl; pipe = refl; exec_file = refl })
    pass_one-PassedOne i (negsuc n ∷ fs) s log log' v le u e =
        let p =
          bind-Parts (pass_one oracle (suc i) fs s) (λ w. done (negsuc n ∷ w.0, w.1)) log log' v
            e in
        done-subst (PassedOne i (negsuc n ∷ fs) s log) (negsuc n ∷ p.value.0, p.value.1) v p.between
          log' p.rest
          (PassedOne-neg i n fs s log p.between p.value
            (pass_one-PassedOne (suc i) fs s log p.between p.value (omega arith) u p.first))
    pass_one-PassedOne i (pos f ∷ fs) s log log' v le u e = elim (Bool-cases (is_below f i)) [
      | inr b ↦
          let p =
            bind-Parts (pass_one oracle (suc i) fs s) (λ w. done (pos f ∷ w.0, w.1)) log log' v
              (rw b at e) in
          done-subst (PassedOne i (pos f ∷ fs) s log) (pos f ∷ p.value.0, p.value.1) v p.between
            log' p.rest
            (PassedOne-stay i f fs s log p.between p.value u.0 b
              (pass_one-PassedOne (suc i) fs s log p.between p.value (omega arith) u.1 p.first))
      | inl b ↦
          let n = (avoid_taken s).nextfd in
          let s1 = record s { nextfd = suc n } in
          let p =
            bind-Parts (call oracle (dup3 f n true))
              (λ _. pass_one oracle (suc i) fs s1 >>= λ w. done (pos n ∷ w.0, w.1)) log log' v
              (rw b at e) in
          let (ok, l) = call-goes oracle (dup3 f n true) p.value log p.between p.first in
          let q =
            bind-Parts (pass_one oracle (suc i) fs s1) (λ w. done (pos n ∷ w.0, w.1)) p.between log'
              v p.rest in
          let free = skip_taken-free s s.nextfd in
          let ih =
            pass_one-PassedOne (suc i) fs s1 p.between q.between q.value (omega arith)
              (Below-mono s.nextfd (suc n) fs (omega (arith, free.0)) u.1) q.first in
          done-subst (PassedOne i (pos f ∷ fs) s log) (pos n ∷ q.value.0, q.value.1) v q.between
            log' q.rest
            (PassedOne-move i f fs s log q.between q.value (omega (arith, free.0)) u ok
              (subst (λ b'. PassedOne (suc i) fs s1 b' q.value q.between) l ih))
    ]
