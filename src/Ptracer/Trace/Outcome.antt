-- ===== src/Ptracer/Trace/Outcome.antt =====
-- When the traced program counts as finished normally, and that no run ends without a verdict.
use go_sandbox.Common.{
  ℕ, Bool, true, nat_eq, ◌≡◌, arith, inl, ◌⊎◌, ◌≢◌, inr, ap, List, refl, ◌++◌, ◌∷◌, [], some,
  String, subst, some-inj, Option-cases, false, ◌||◌, ◌==◌, ◌&&◌,
}
use go_sandbox.Runner.{invalid, normal, Limit, Result}
use go_sandbox.Ptracer.Events.{
  Answers, TraceHandler, Wait, reaped, failed, interrupted, value, stopped, exited, signaled,
  continued,
}
use go_sandbox.Ptracer.Trace.{
  State, Round, next, return, panicked, round, Ending, waiting, returned, recovered, loop,
  trace_run, deferred, initial, finish, Trapped, handle_trap, on_reaped, dispatch, passed, on_exit,
  refused, on_kill, trap_panicked, on_stop, on_stop_signal, on_trap, on_signal,
}
use go_sandbox.Ptracer.Trace.Verdicts.{is_failure, Finished, Verdict, on_reaped-Verdict}
use go_sandbox.Ptracer.Signals.{sigtrap, ptrace_event_exec}

either_exec :
    (x y is has : Bool)
    → (y ≡ true → (x || is) ≡ true)
    → (y || has) ≡ true
    → (x || (is || has)) ≡ true
either_exec true y is has h e = refl
either_exec false y true has h e = refl
either_exec false true false has h e = absurd (ground (arith, h refl))
either_exec false false false has h e = e

module _ {H : Type 0} (th : TraceHandler H) (limit : Limit) (pgid : ℕ) where
  round-Verdict :
      (s : State th limit pgid) (w : Wait) (ans : Answers)
      → s.status ≡ normal
      → Verdict th limit pgid s.execved w (round th limit pgid s w ans)
  unfolding round
  round-Verdict s interrupted ans h = h
  round-Verdict s (failed message) ans h = inl refl
  round-Verdict s (reaped pid ws ru) ans h =
      on_reaped-Verdict th limit pgid pid ws ru ans (waiting th limit pgid s) h

  -- a report of the stop that follows an execve
  abbrev pub is_exec : Wait → Bool
  is_exec (reaped pid (stopped sig cause) ru) = (sig == sigtrap) && (cause == ptrace_event_exec)
  is_exec _ = false

  abbrev pub has_exec : List (Wait × Answers) → Bool
  has_exec [] = false
  has_exec ((w, ans) ∷ rounds) = is_exec w || has_exec rounds

  abbrev SameExec : Bool → Trapped th limit pgid → Type 0
  SameExec x (passed t) = t.execved ≡ x
  SameExec x (refused t message) = t.execved ≡ x
  SameExec x (trap_panicked t) = t.execved ≡ x

  handle_trap-SameExec :
      (pid : ℕ) (ans : Answers) (s : State th limit pgid)
      → SameExec s.execved (handle_trap th limit pgid pid ans s)
  unfolding handle_trap
  handle_trap-SameExec pid ans s = ground arith

  -- Only the report of an execve makes a round go on behind one.
  round-is_exec :
      (s t : State th limit pgid) (w : Wait) (ans : Answers)
      → round th limit pgid s w ans ≡ next t
      → t.execved ≡ true
      → (s.execved || is_exec w) ≡ true
  unfolding round on_reaped dispatch on_exit on_kill on_stop on_stop_signal on_trap on_signal
  round-is_exec s t interrupted ans e h = ground arith
  round-is_exec s t (failed message) ans e h = ground arith
  round-is_exec s t (reaped pid (exited code) ru) ans e h = ground arith
  round-is_exec s t (reaped pid (signaled sig) ru) ans e h = ground arith
  round-is_exec s t (reaped pid (stopped sig cause) ru) ans e h = ground arith
  round-is_exec s t (reaped pid continued ru) ans e h = ground arith

  -- Some round shows that the main process finished, and `execved` is set before the rounds, or an
  -- earlier one of them reports an execve.
  pub record FinishedIn (execved : Bool) (rounds : List (Wait × Answers)) : Type 0 where
    pub before : List (Wait × Answers)
    pub wait : Wait
    pub answers : Answers
    pub after : List (Wait × Answers)
    pub split : rounds ≡ before ++ (wait, answers) ∷ after
    pub finished : Finished th limit pgid wait
    pub after_exec : (execved || has_exec before) ≡ true

  abbrev Concluded : Bool → List (Wait × Answers) → Ending th limit pgid → Type 0
  Concluded execved rounds (returned t) =
      (is_failure t.result.status ≡ true) ⊎ ((t.result.status ≡ normal) × FinishedIn execved rounds)
  Concluded execved rounds (recovered t) = Unit

  FinishedIn-cons :
      (x y : Bool) (w : Wait) (ans : Answers) (rounds : List (Wait × Answers))
      → (y ≡ true → (x || is_exec w) ≡ true)
      → FinishedIn y rounds
      → FinishedIn x ((w, ans) ∷ rounds)
  FinishedIn-cons x y w ans rounds h f = record {
    before = (w, ans) ∷ f.before;
    wait = f.wait;
    answers = f.answers;
    after = f.after;
    split = ap (λ l. (w, ans) ∷ l) f.split;
    after_exec = either_exec x y (is_exec w) (has_exec f.before) h f.after_exec;
    finished = f.finished;
  }

  Concluded-cons :
      (x y : Bool) (w : Wait) (ans : Answers) (rounds : List (Wait × Answers))
      (e : Ending th limit pgid)
      → (y ≡ true → (x || is_exec w) ≡ true)
      → Concluded y rounds e
      → Concluded x ((w, ans) ∷ rounds) e
  Concluded-cons x y w ans rounds (returned t) g (inl h) = inl h
  Concluded-cons x y w ans rounds (returned t) g (inr (h, f)) =
      inr (h, FinishedIn-cons x y w ans rounds g f)
  Concluded-cons x y w ans rounds (recovered t) g h = tt

  Verdict-Concluded :
      (execved : Bool) (w : Wait) (ans : Answers) (rest : List (Wait × Answers))
      (t : State th limit pgid)
      → Verdict th limit pgid execved w (return t)
      → Concluded execved ((w, ans) ∷ rest) (returned t)
  Verdict-Concluded execved w ans rest t (inl h) = inl h
  Verdict-Concluded execved w ans rest t (inr (h, x, f)) = inr (
    h,
    record {
      before = [];
      wait = w;
      answers = ans;
      after = rest;
      split = refl;
      after_exec = rw x refl;
      finished = f;
    },
  )

  data RoundView (r : Round th limit pgid) : Type 0 where
    is_next : (t : State th limit pgid) → r ≡ next t → RoundView r
    is_return : (t : State th limit pgid) → r ≡ return t → RoundView r
    is_panicked : (t : State th limit pgid) → r ≡ panicked t → RoundView r

  round_view : (r : Round th limit pgid) → RoundView r
  round_view (next t) = is_next t refl
  round_view (return t) = is_return t refl
  round_view (panicked t) = is_panicked t refl

  loop-Concluded :
      (s : State th limit pgid) (rounds : List (Wait × Answers)) (e : Ending th limit pgid)
      → s.status ≡ normal
      → loop th limit pgid s rounds ≡ some e
      → Concluded s.execved rounds e
  unfolding loop
  loop-Concluded s [] e n h = cc
  loop-Concluded s ((w, ans) ∷ rest) e n h =
      let v : Verdict th limit pgid s.execved w (round th limit pgid s w ans) =
        round-Verdict s w ans n in
      elim (round_view (round th limit pgid s w ans)) [
        | is_next t q ↦
            Concluded-cons s.execved t.execved w ans rest e (round-is_exec s t w ans q)
              (loop-Concluded t rest e (rw q at v) (rw (q, loop) at h))
        | is_return t q ↦
            subst (Concluded s.execved ((w, ans) ∷ rest)) (some-inj (rw (q, loop) at h))
              (Verdict-Concluded s.execved w ans rest t (rw q at v))
        | is_panicked t q ↦
            subst (Concluded s.execved ((w, ans) ∷ rest)) (some-inj (rw (q, loop) at h)) tt
      ]

  deferred_verdict :
      (rounds : List (Wait × Answers)) (s_time end_time : ℕ) (panic_text : String)
      (x : Ending th limit pgid)
      → Concluded false rounds x
      → let r = (deferred th limit pgid s_time end_time panic_text x).result in
        (r.status ≢ invalid) × (r.status ≡ normal → FinishedIn false rounds)
  unfolding deferred
  deferred_verdict rounds s_time end_time panic_text (returned t) (inl f) =
      (λ i. ground arith, λ n. absurd (ground arith))
  deferred_verdict rounds s_time end_time panic_text (returned t) (inr (n, f)) =
      (λ i. ground arith, λ _. f)
  deferred_verdict rounds s_time end_time panic_text (recovered t) c = (λ i. cc, λ n. cc)

  -- A run of a started child, whatever the kernel answers, ends with a verdict, never with the
  -- status `invalid`. It is `normal` only if the main process exited with code 0, in a round whose
  -- usage was within both limits, behind an earlier round that reported an execve.
  pub trace_run_verdict :
      (h : H) (rounds : List (Wait × Answers)) (s_time end_time : ℕ) (panic_text : String)
      (r : Result)
      → trace_run th limit (value pgid) h rounds s_time end_time panic_text ≡ some r
      → (r.status ≢ invalid) × (r.status ≡ normal → FinishedIn false rounds)
  unfolding trace_run
  trace_run_verdict h rounds s_time end_time panic_text r e =
      elim (Option-cases (loop th limit pgid (initial th limit pgid h) rounds)) [
        | inl n ↦ absurd (ground arith)
        | inr (x, q) ↦
            subst (λ y. (y.status ≢ invalid) × (y.status ≡ normal → FinishedIn false rounds))
              (some-inj (rw (q, finish) at e))
              (deferred_verdict rounds s_time end_time panic_text x
                (loop-Concluded (initial th limit pgid h) rounds x refl q))
      ]
