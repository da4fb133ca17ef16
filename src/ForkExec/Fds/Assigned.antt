-- ===== src/ForkExec/Fds/Assigned.antt =====
-- The whole of the descriptor shuffle: where the files, the pipe and the executable end up.
use go_sandbox.Common.{ℕ, suc, List, [], ◌∷◌}
use go_sandbox.Common.Int.{ℤ, pos, negsuc}
use go_sandbox.ForkExec.Fds.Placement.{
  Descriptors, Placed, differ, Below, PassedOne, max_fd-Below, max_fd-ge, pass_one-PassedOne,
  Below-mono,
}
use go_sandbox.Common.{
  List, ◌<◌, ℕ, ◌≢◌, arith, ◌≤◌, ◌≡◌, length, true, refl, Bool-cases, ◌++◌, ◌∷◌, ltb, [], ◌&&◌, inl,
  ap, ltb→lt, suc, ◌∙◌, same_refl, inr, ltb→ge,
}
use go_sandbox.ForkExec.Fds.{
  Slots, move_pipe, move_exec_file, max_fd, assign_fds, pass_two, prepare_fds, pass_one,
}
use go_sandbox.ForkExec.Calls.{
  Oracle, Call, dup3, goes, bind-Parts, call, done, call-goes, done-subst, ◌>>=◌, ◌>>◌,
}
use go_sandbox.Common.Int.{ℤ}
use go_sandbox.ForkExec.Fds.Landing.{PassedTwo, Landed, pass_two-PassedTwo}

Placed-length :
    {F : Type 0} (at : List Call → ℕ → F) (a b : List Call) (i : ℕ) (fs gs : List ℤ)
    → Placed at a b i fs gs
    → length gs ≡ length fs
Placed-length at a b i [] [] p = refl
Placed-length at a b i (pos f ∷ fs) (pos g ∷ gs) p = ap suc (Placed-length at a b (suc i) fs gs p.2)
Placed-length at a b i (negsuc f ∷ fs) (negsuc g ∷ gs) p =
    ap suc (Placed-length at a b (suc i) fs gs p.1)
Placed-length at a b i [] (g ∷ gs) p = elim p [ ]
Placed-length at a b i (pos f ∷ fs) [] p = elim p [ ]
Placed-length at a b i (negsuc f ∷ fs) [] p = elim p [ ]
Placed-length at a b i (pos f ∷ fs) (negsuc g ∷ gs) p = elim p [ ]
Placed-length at a b i (negsuc f ∷ fs) (pos g ∷ gs) p = elim p [ ]

-- The free number that one move uses is not the other of the two descriptors.
abbrev pub Apart : Slots → Type 0
Apart s =
    0 < s.exec_file
    → (s.pipe < s.nextfd → s.exec_file ≢ s.nextfd)
      × (s.nextfd ≤ s.pipe → s.exec_file < s.nextfd → s.pipe ≢ s.nextfd)

abbrev pub first_slots : List ℤ → ℕ → ℕ → Slots
first_slots files pipe exec_file = record {
  pipe = pipe;
  exec_file = exec_file;
  nextfd = suc (max_fd (length files) files);
}

module _ {F : Type 0} (oracle : Oracle) (at : List Call → ℕ → F) (d : Descriptors oracle at) where
  -- A move of the two descriptors, to numbers that are not below the first free one.
  record Shift (s s' : Slots) (log log' : List Call) : Type 0 where
    pipe : at log' s'.pipe ≡ at log s.pipe
    exec_file : 0 < s.exec_file → (0 < s'.exec_file) × (at log' s'.exec_file ≡ at log s.exec_file)
    low : (x : ℕ) → x < s.nextfd → at log' x ≡ at log x
    next : s.nextfd ≤ s'.nextfd

  dup-Step :
      (a n : ℕ) (log log' : List Call)
      → (oracle log (dup3 a n true)).err ≡ 0
      → log' ≡ log ++ dup3 a n true ∷ []
      → (at log' n ≡ at log a) × ((x : ℕ) → x ≢ n → at log' x ≡ at log x)
  dup-Step a n log log' ok e = (
    ap (λ l. at l n) e ∙ d.duplicate log a n true n ok ∙ rw (same_refl n) refl,
    λ x ne. ap (λ l. at l x) e ∙ d.duplicate log a n true x ok ∙ rw (differ x n ne) refl,
  )

  abbrev PipeShift : Slots → List Call → Slots → List Call → Type 0
  PipeShift s log s' log' =
      Shift s s' log log'
      × (s.nextfd ≤ s'.pipe)
      × (0 < s'.exec_file → s'.exec_file < s'.nextfd → s'.pipe ≢ s'.nextfd)

  abbrev ExecShift : Slots → List Call → Slots → List Call → Type 0
  ExecShift s log s' log' =
      Shift s s' log log' × (s'.pipe ≡ s.pipe) × (0 < s'.exec_file → s.nextfd ≤ s'.exec_file)

  stay-Shift : (s : Slots) (log : List Call) → Shift s s log log
  stay-Shift s log = record {
    pipe = refl;
    exec_file = λ h. (h, refl);
    low = λ x h. refl;
    next = omega arith;
  }

  move_pipe-PipeShift :
      (s s' : Slots) (log log' : List Call)
      → Apart s
      → move_pipe oracle s log ≡ (goes s', log')
      → PipeShift s log s' log'
  unfolding move_pipe
  move_pipe-PipeShift s s' log log' apart e = elim (Bool-cases (ltb s.pipe s.nextfd)) [
    | inl b ↦
        let lt : s.pipe < s.nextfd = ltb→lt s.pipe s.nextfd b in
        let s1 = record s { pipe = s.nextfd; nextfd = suc s.nextfd } in
        let p =
          bind-Parts (call oracle (dup3 s.pipe s.nextfd true)) (λ _. done s1) log log' s'
            (rw b at e) in
        let (ok, l) = call-goes oracle (dup3 s.pipe s.nextfd true) p.value log p.between p.first in
        let (here, others) = dup-Step s.pipe s.nextfd log p.between ok l in
        done-subst (PipeShift s log) s1 s' p.between log' p.rest (
          record {
            pipe = here;
            exec_file = λ h. (h, others s.exec_file ((apart h).0 lt));
            low = λ x h. others x (λ q. omega arith);
            next = omega arith;
          },
          omega arith,
          λ h h' q. omega arith,
        )
    | inr b ↦
        done-subst (PipeShift s log) s s' log log' (rw b at e)
          (stay-Shift s log, ltb→ge s.pipe s.nextfd b, λ h. (apart h).1 (ltb→ge s.pipe s.nextfd b))
  ]

  move_exec_file-ExecShift :
      (s s' : Slots) (log log' : List Call)
      → (0 < s.exec_file → s.exec_file < s.nextfd → s.pipe ≢ s.nextfd)
      → move_exec_file oracle s log ≡ (goes s', log')
      → ExecShift s log s' log'
  unfolding move_exec_file
  move_exec_file-ExecShift s s' log log' apart e =
      elim (Bool-cases (ltb 0 s.exec_file && ltb s.exec_file s.nextfd)) [
        | inl b ↦
            let h : (0 < s.exec_file) × (s.exec_file < s.nextfd) = ground arith in
            let s1 = record s { exec_file = s.nextfd; nextfd = suc s.nextfd } in
            let p =
              bind-Parts (call oracle (dup3 s.exec_file s.nextfd true)) (λ _. done s1) log log' s'
                (rw b at e) in
            let (ok, l) =
              call-goes oracle (dup3 s.exec_file s.nextfd true) p.value log p.between p.first in
            let (here, others) = dup-Step s.exec_file s.nextfd log p.between ok l in
            done-subst (ExecShift s log) s1 s' p.between log' p.rest (
              record {
                pipe = others s.pipe (apart h.0 h.1);
                exec_file = λ k. (omega (arith, h), here);
                low = λ x k. others x (λ q. omega arith);
                next = omega arith;
              },
              refl,
              λ k. omega arith,
            )
        | inr b ↦
            done-subst (ExecShift s log) s s' log log' (rw b at e)
              (stay-Shift s log, refl, λ h. ground arith)
      ]

  -- the numbers that the second pass does not write
  pass_two-keeps :
      (a b c : List Call) (fs gs : List ℤ) (x : ℕ)
      → PassedTwo at oracle d a b c 0 fs gs
      → length gs ≡ length fs
      → length fs ≤ x
      → at c x ≡ at b x
  pass_two-keeps a b c fs gs x p e h = p.kept x (inr (omega arith))

  abbrev pub Assigned : List ℤ → Slots → List Call → Slots → List Call → Type 0
  Assigned files s log s' log' =
      Landed at log log' 0 files
      × (at log' s'.pipe ≡ at log s.pipe)
      × (0 < s.exec_file → at log' s'.exec_file ≡ at log s.exec_file)

  Landed-rebase :
      (a a' b : List Call) (i n : ℕ) (fs : List ℤ)
      → Below n fs
      → ((x : ℕ) → x < n → at a x ≡ at a' x)
      → Landed at a b i fs
      → Landed at a' b i fs
  Landed-rebase a a' b i n [] u k l = tt
  Landed-rebase a a' b i n (pos f ∷ fs) u k l =
      (l.0 ∙ k f u.0, Landed-rebase a a' b (suc i) n fs u.1 k l.1)
  Landed-rebase a a' b i n (negsuc f ∷ fs) u k l = Landed-rebase a a' b (suc i) n fs u k l

  passes-Assigned :
      (files fds : List ℤ) (s0 s1 s2 s3 : Slots) (log0 log1 log2 log3 log4 : List Call)
      → length files ≤ s0.nextfd
      → Below s0.nextfd files
      → PipeShift s0 log0 s1 log1
      → ExecShift s1 log1 s2 log2
      → PassedOne at oracle d 0 files s2 log2 (fds, s3) log3
      → PassedTwo at oracle d log2 log3 log4 0 files fds
      → Assigned files s0 log0 s3 log4
  passes-Assigned files fds s0 s1 s2 s3 log0 log1 log2 log3 log4 le u (a, ap1, aq) (b, bp, bq) one
        two =
      let same_length = Placed-length at log2 log3 0 files fds one.placed in
      let keeps : (x : ℕ) → length files ≤ x → at log4 x ≡ at log3 x =
        λ x h. pass_two-keeps log2 log3 log4 files fds x two same_length h in
      let pipe_same : s3.pipe ≡ s1.pipe = one.pipe ∙ bp in
      (
        Landed-rebase log2 log0 log4 0 s0.nextfd files u
            (λ x h. b.low x (omega (arith, a.next)) ∙ a.low x h) two.landed,
        keeps s3.pipe (omega arith)
            ∙ ap (λ x. at log3 x) one.pipe
            ∙ one.kept s2.pipe (inr (inl refl))
            ∙ b.pipe
            ∙ a.pipe,
        λ h.
            let (h1, e1) = a.exec_file h in
            let (h2, e2) = b.exec_file h1 in
            keeps s3.exec_file (omega (arith, one.exec_file, bq h2, a.next))
            ∙ ap (λ x. at log3 x) one.exec_file
            ∙ one.kept s2.exec_file (inr (inr (h2, refl)))
            ∙ e2
            ∙ e1,
      )

  -- Where neither of the two moves before the passes hits the other descriptor: if no call fails,
  -- descriptor `i` of the child shows the file that was at `files[i]`, and the pipe and the
  -- executable are where the child looks for them.
  pub assign_fds-Assigned :
      (files : List ℤ) (pipe exec_file : ℕ) (s : Slots) (log log' : List Call)
      → Apart (first_slots files pipe exec_file)
      → assign_fds oracle files pipe exec_file log ≡ (goes s, log')
      → Assigned files (first_slots files pipe exec_file) log s log'
  unfolding assign_fds prepare_fds
  assign_fds-Assigned files pipe exec_file s log log' apart e =
      let s0 = first_slots files pipe exec_file in
      let p1 =
        bind-Parts (move_pipe oracle s0)
          (λ s1. move_exec_file oracle s1 >>= λ s2.
            pass_one oracle 0 files s2 >>= λ v. pass_two oracle 0 v.0 >> done v.1)
          log log' s e in
      let shift1 = move_pipe-PipeShift s0 p1.value log p1.between apart p1.first in
      let p2 =
        bind-Parts (move_exec_file oracle p1.value)
          (λ s2. pass_one oracle 0 files s2 >>= λ v. pass_two oracle 0 v.0 >> done v.1) p1.between
          log' s p1.rest in
      let shift2 =
        move_exec_file-ExecShift p1.value p2.value p1.between p2.between shift1.2 p2.first in
      let p3 =
        bind-Parts (pass_one oracle 0 files p2.value) (λ v. pass_two oracle 0 v.0 >> done v.1)
          p2.between log' s p2.rest in
      let big : s0.nextfd ≤ p2.value.nextfd = omega (arith, shift1.0.next, shift2.0.next) in
      let below = max_fd-Below (length files) files in
      let long = max_fd-ge (length files) files in
      let one =
        pass_one-PassedOne at oracle d 0 files p2.value p2.between p3.between p3.value
          (omega (arith, big, long)) (Below-mono s0.nextfd p2.value.nextfd files big below)
          p3.first in
      let p4 =
        bind-Parts (pass_two oracle 0 p3.value.0) (λ _. done p3.value.1) p3.between log' s
          p3.rest in
      let two =
        pass_two-PassedTwo at oracle d p2.between p3.between p4.between 0 files p3.value.0 p4.value
          one.placed p4.first in
      done-subst (Assigned files s0 log) p3.value.1 s p4.between log' p4.rest (
        passes-Assigned files p3.value.0 s0 p1.value p2.value p3.value.1 log p1.between p2.between
          p3.between p4.between (omega (arith, long)) below shift1 shift2 one two)
