-- ===== src/Ptracer/Trace/Rounds.antt =====
-- Single rounds of the loop: the limits, the time before the execve, and the answers of the handler.
use go_sandbox.Common.{
  ℕ, ◌≡◌, if◌then◌else◌, true, ◌||◌, false, same_refl, arith, refl, nat_eq, Option, String,
}
use go_sandbox.Ptracer.Events.{
  TraceHandler, limit_status, WaitStatus, over_memory, Answers, over_time, Wait, reaped, failed,
  exited, signaled, stopped, interrupted, continued, OrError,
}
use go_sandbox.Runner.{
  Limit, Rusage, memory_limit_exceeded, time_limit_exceeded, user_time, user_mem, Status, is_normal,
}
use go_sandbox.Ptracer.Trace.{
  round, State, on_stop, Round, on_reaped, on_stop_signal, return, dispatch, on_trap, on_exit, next,
  on_kill, on_signal, measured, waiting, panicked,
}
use go_sandbox.Ptracer.Regs.{Amd64}

limit_status_over :
    (limit : Limit) (ru : Rusage) (s : Status)
    → (over_time limit ru || over_memory limit ru) ≡ true
    → (limit_status limit ru s
        ≡ (if over_memory limit ru then memory_limit_exceeded else time_limit_exceeded))
      × (is_normal (limit_status limit ru s) ≡ false)
unfolding limit_status
limit_status_over limit ru s h = ground arith

module _ {H : Type 0} (th : TraceHandler H) (limit : Limit) (pgid : ℕ) where
  -- The result that a report of the main process over a limit gives at once.
  pub record Exceeded (ru : Rusage) (r : Round th limit pgid) : Type 0 where
    pub end : State th limit pgid
    pub returns : r ≡ return end
    pub status :
        end.result.status
        ≡ (if over_memory limit ru then memory_limit_exceeded else time_limit_exceeded)
    pub time : end.result.time ≡ user_time ru
    pub memory : end.result.memory ≡ user_mem ru

  -- A report of the main process over a limit ends the run in its round, whatever the process did;
  -- where both limits are exceeded the memory limit is reported.
  pub round_over_limit :
      (s : State th limit pgid) (ws : WaitStatus) (ru : Rusage) (ans : Answers)
      → (over_time limit ru || over_memory limit ru) ≡ true
      → Exceeded ru (round th limit pgid s (reaped pgid ws ru) ans)
  unfolding round on_reaped
  round_over_limit s ws ru ans h =
      let (status, over) = limit_status_over limit ru s.status h in
      rw (same_refl pgid, over)
        (record {
          end = measured th limit pgid ru (waiting th limit pgid s);
          returns = refl;
          status = status;
          time = refl;
          memory = refl;
        })

  abbrev pub KeepsHandler : H → Round th limit pgid → Type 0
  KeepsHandler h (next t) = t.handler ≡ h
  KeepsHandler h (return t) = t.handler ≡ h
  KeepsHandler h (panicked t) = t.handler ≡ h

  -- A round before the execve, however it ends, leaves the handler as it was, and does not depend on
  -- the event message, the registers and the skipping of a call, from which alone a call of the
  -- handler is made.
  pub round_before_exec :
      (s : State th limit pgid) (w : Wait) (ans : Answers) (msg : OrError ℕ) (regs : OrError Amd64)
      (skip : Option String)
      → s.execved ≡ false
      → KeepsHandler s.handler (round th limit pgid s w ans)
        × (round th limit pgid s w (record ans { event_msg = msg; regs = regs; skip = skip })
            ≡ round th limit pgid s w ans)
  unfolding round on_reaped dispatch on_exit on_kill on_stop on_stop_signal on_trap on_signal
  round_before_exec s interrupted ans msg regs skip e = (ground arith, ground arith)
  round_before_exec s (failed message) ans msg regs skip e = (ground arith, ground arith)
  round_before_exec s (reaped pid (exited code) ru) ans msg regs skip e =
      (ground arith, ground arith)
  round_before_exec s (reaped pid (signaled sig) ru) ans msg regs skip e =
      (ground arith, ground arith)
  round_before_exec s (reaped pid (stopped sig cause) ru) ans msg regs skip e =
      (ground arith, ground arith)
  round_before_exec s (reaped pid continued ru) ans msg regs skip e = (ground arith, ground arith)
