-- ===== src/Ptracer/Trace/Verdicts.antt =====
-- What one round of the loop says of the status.
use go_sandbox.Common.{
  ℕ, Bool, true, false, nat_eq, ◌≡◌, arith, inl, ◌⊎◌, ◌≢◌, Bool-cases, same_refl, ◌==◌, inr, ap,
  nat_beq_iff, refl,
}
use go_sandbox.Runner.{Status, invalid, normal, is_normal, Limit, Rusage}
use go_sandbox.Ptracer.Events.{
  Answers, TraceHandler, over_time, over_memory, signal_status, limit_status, Wait, reaped,
  WaitStatus, exited, signaled, stopped, continued,
}
use go_sandbox.Ptracer.Trace.{
  State, Round, next, return, panicked, Trapped, passed, refused, trap_panicked, handle_trap,
  on_trap, on_signal, on_stop_signal, on_stop, on_kill, on_exit, dispatch, on_reaped, with_options,
  measured,
}

abbrev pub is_failure : Status → Bool
is_failure invalid = false
is_failure normal = false
is_failure _ = true

signal_status_fails : (sig : ℕ) → is_failure (signal_status sig) ≡ true
unfolding signal_status
signal_status_fails sig = ground arith

limit_status_normal :
    (limit : Limit) (ru : Rusage) (s : Status)
    → limit_status limit ru s ≡ normal
    → (over_time limit ru ≡ false) × (over_memory limit ru ≡ false)
unfolding limit_status
limit_status_normal limit ru s h = ground arith

limit_status_failure :
    (limit : Limit) (ru : Rusage)
    → is_normal (limit_status limit ru normal) ≡ false
    → is_failure (limit_status limit ru normal) ≡ true
unfolding limit_status
limit_status_failure limit ru h = ground arith

is_normal-eq : (s : Status) → is_normal s ≡ true → s ≡ normal
is_normal-eq s h = ground arith

module _ {H : Type 0} (th : TraceHandler H) (limit : Limit) (pgid : ℕ) where
  -- The round goes on with the status normal, or returns a failure.
  abbrev Fails : Round th limit pgid → Type 0
  Fails (next t) = t.status ≡ normal
  Fails (return t) = is_failure t.result.status ≡ true
  Fails (panicked t) = Unit

  abbrev SameStatus : Status → Trapped th limit pgid → Type 0
  SameStatus x (passed t) = t.status ≡ x
  SameStatus x (refused t message) = t.status ≡ x
  SameStatus x (trap_panicked t) = t.status ≡ x

  handle_trap-SameStatus :
      (pid : ℕ) (ans : Answers) (s : State th limit pgid)
      → SameStatus s.status (handle_trap th limit pgid pid ans s)
  unfolding handle_trap
  handle_trap-SameStatus pid ans s = ground arith

  on_trap-Fails :
      (pid cause : ℕ) (ans : Answers) (s : State th limit pgid)
      → s.status ≡ normal
      → Fails (on_trap th limit pgid pid cause ans s)
  unfolding on_trap
  on_trap-Fails pid cause ans s h = ground (arith, handle_trap-SameStatus pid ans s)

  on_signal-Fails :
      (pid sig : ℕ) (s : State th limit pgid)
      → s.status ≡ normal
      → Fails (on_signal th limit pgid pid sig s)
  unfolding on_signal
  on_signal-Fails pid sig s h = ground arith

  on_stop_signal-Fails :
      (pid sig cause : ℕ) (ans : Answers) (s : State th limit pgid)
      → s.status ≡ normal
      → Fails (on_stop_signal th limit pgid pid sig cause ans s)
  unfolding on_stop_signal
  on_stop_signal-Fails pid sig cause ans s h =
      ground (arith, on_trap-Fails pid cause ans s, on_signal-Fails pid sig s)

  on_stop-Fails :
      (pid sig cause : ℕ) (ans : Answers) (s : State th limit pgid)
      → s.status ≡ normal
      → Fails (on_stop th limit pgid pid sig cause ans s)
  unfolding on_stop
  on_stop-Fails pid sig cause ans s h = ground (
    arith,
    on_stop_signal-Fails pid sig cause ans s,
    on_stop_signal-Fails pid sig cause ans (with_options th limit pgid pid s),
  )

  -- The main process exited with code 0, within both limits.
  pub record Finished (w : Wait) : Type 0 where
    pub usage : Rusage
    pub exits : w ≡ reaped pgid (exited 0) usage
    pub in_time : over_time limit usage ≡ false
    pub in_memory : over_memory limit usage ≡ false

  -- A round goes on with the status normal, or returns a verdict, which is `normal` only if the
  -- main process finished behind its execve.
  abbrev pub Verdict : Bool → Wait → Round th limit pgid → Type 0
  Verdict execved w (next t) = t.status ≡ normal
  Verdict execved w (return t) =
      (is_failure t.result.status ≡ true)
      ⊎ ((t.result.status ≡ normal) × (execved ≡ true) × Finished w)
  Verdict execved w (panicked t) = Unit

  Fails-Verdict :
      (execved : Bool) (w : Wait) (r : Round th limit pgid) → Fails r → Verdict execved w r
  Fails-Verdict execved w (next t) h = h
  Fails-Verdict execved w (return t) h = inl h
  Fails-Verdict execved w (panicked t) h = tt

  on_kill-Fails :
      (pid sig : ℕ) (s : State th limit pgid)
      → s.status ≡ normal
      → Fails (on_kill th limit pgid pid sig s)
  unfolding on_kill
  on_kill-Fails pid sig s h = ground (arith, signal_status_fails sig)

  -- an exit of another process goes on, one of the main process returns
  on_exit_other :
      (pid code : ℕ) (s : State th limit pgid)
      → s.status ≡ normal
      → pid ≢ pgid
      → Fails (on_exit th limit pgid pid code s)
  unfolding on_exit
  on_exit_other pid code s h other = ground arith

  on_exit_main :
      (code : ℕ) (ru : Rusage) (s : State th limit pgid)
      → over_time limit ru ≡ false
      → over_memory limit ru ≡ false
      → Verdict s.execved (reaped pgid (exited code) ru) (on_exit th limit pgid pgid code s)
  unfolding on_exit
  on_exit_main code ru s t m = rw (same_refl pgid) (elim (Bool-cases s.execved) [
    | inl e ↦ rw e (elim (Bool-cases (code == 0)) [
      | inl z ↦ rw z (
          inr (
            refl,
            refl,
            record {
              usage = ru;
              exits = ap (λ c. reaped pgid (exited c) ru) ((nat_beq_iff code 0).0 z);
              in_time = t;
              in_memory = m;
            },
          ))
      | inr z ↦ rw z (inl refl)
    ])
    | inr e ↦ rw e (inl refl)
  ])

  dispatch-Verdict_other :
      (pid : ℕ) (ws : WaitStatus) (ru : Rusage) (ans : Answers) (s : State th limit pgid)
      → s.status ≡ normal
      → pid ≢ pgid
      → Fails (dispatch th limit pgid pid ws ans s)
  unfolding dispatch
  dispatch-Verdict_other pid (exited code) ru ans s h o = on_exit_other pid code s h o
  dispatch-Verdict_other pid (signaled sig) ru ans s h o = on_kill-Fails pid sig s h
  dispatch-Verdict_other pid (stopped sig cause) ru ans s h o = on_stop-Fails pid sig cause ans s h
  dispatch-Verdict_other pid continued ru ans s h o = h

  dispatch-Verdict :
      (ws : WaitStatus) (ru : Rusage) (ans : Answers) (s : State th limit pgid)
      → s.status ≡ normal
      → over_time limit ru ≡ false
      → over_memory limit ru ≡ false
      → Verdict s.execved (reaped pgid ws ru) (dispatch th limit pgid pgid ws ans s)
  unfolding dispatch
  dispatch-Verdict (exited code) ru ans s h t m = on_exit_main code ru s t m
  dispatch-Verdict (signaled sig) ru ans s h t m =
      Fails-Verdict _ _ (on_kill th limit pgid pgid sig s) (on_kill-Fails pgid sig s h)
  dispatch-Verdict (stopped sig cause) ru ans s h t m =
      Fails-Verdict _ _ (on_stop th limit pgid pgid sig cause ans s)
        (on_stop-Fails pgid sig cause ans s h)
  dispatch-Verdict continued ru ans s h t m = h

  pub on_reaped-Verdict :
      (pid : ℕ) (ws : WaitStatus) (ru : Rusage) (ans : Answers) (s : State th limit pgid)
      → s.status ≡ normal
      → Verdict s.execved (reaped pid ws ru) (on_reaped th limit pgid pid ws ru ans s)
  unfolding on_reaped
  on_reaped-Verdict pid ws ru ans s h = elim (Bool-cases (pid == pgid)) [
    | inr other ↦ rw other (
        Fails-Verdict _ _ (dispatch th limit pgid pid ws ans s)
          (dispatch-Verdict_other pid ws ru ans s h (λ e. ground (arith, nat_beq_iff pid pgid))))
    | inl main ↦ rw main (elim (Bool-cases (is_normal (limit_status limit ru s.status))) [
      | inr over ↦ rw over (inl (rw h (limit_status_failure limit ru (rw h at over))))
      | inl fine ↦
          let good : limit_status limit ru s.status ≡ normal = is_normal-eq _ fine in
          let (t, m) = limit_status_normal limit ru s.status good in
          rw (fine, (nat_beq_iff pid pgid).0 main)
            (dispatch-Verdict ws ru ans (measured th limit pgid ru s) good t m)
    ])
  ]
