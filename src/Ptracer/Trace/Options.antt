-- ===== src/Ptracer/Trace/Options.antt =====
-- Every traced process has its ptrace options set before it goes on from a stop.
use go_sandbox.Common.{ℕ, ◌≡◌, some, true, nat_eq}
use go_sandbox.Ptracer.Events.{TraceHandler, Answers, WaitStatus, Wait, reaped, stopped}
use go_sandbox.Runner.{Limit}
use go_sandbox.Ptracer.Trace.{State, Round, next, return, panicked, round, initial}
use go_sandbox.Common.Dict.{lookup}
use go_sandbox.Ptracer.Trace.Kept.{IsOptioned, Optioned, Kept}

module _ {H : Type 0} (th : TraceHandler H) (limit : Limit) (pgid : ℕ) where
  Kept-Optioned :
      (s : State th limit pgid) (r : Round th limit pgid)
      → IsOptioned th limit pgid s
      → Kept th limit pgid s r
      → Optioned th limit pgid (λ t. Unit {0}) r
  Kept-Optioned s (next t) o k = ((k o).0, tt)
  Kept-Optioned s (return t) o k = tt
  Kept-Optioned s (panicked t) o k = tt

  -- what a round shows of the process that it is about
  abbrev Stopped : WaitStatus → ℕ → State th limit pgid → Type 0
  Stopped (stopped sig cause) pid t = lookup pid t.traced ≡ some true
  Stopped _ pid t = Unit

  abbrev AtStop : Wait → State th limit pgid → Type 0
  AtStop (reaped pid ws ru) t = Stopped ws pid t
  AtStop _ t = Unit

  -- The states that the loop reaches from its first one.
  pub data Reached (h : H) : State th limit pgid → Type 0 where
    start : Reached h (initial th limit pgid h)
    go_on :
        {s t : State th limit pgid} (w : Wait) (ans : Answers)
        → Reached h s
        → round th limit pgid s w ans ≡ next t
        → Reached h t
