-- ===== src/Examples/Tracing.antt =====
-- The trace loop on short runs: the child is process 7, and its handler bans system call 2 and
-- kills for every other one.
use go_sandbox.Runner.{
  Limit, Rusage, Result, user_time, normal, invalid, user_mem, zero_result, time_sub,
}
use go_sandbox.Common.{
  ℕ, List, ◌≢◌, ◌≡◌, some, true, Option, none, ◌∷◌, [], suc, refl, ◌^◌, ◌-◌, if◌then◌else◌, ◌==◌,
  nat_eq, false,
}
use go_sandbox.Ptracer.Events.{
  TraceHandler, Answers, Wait, set_options, reaped, value, stopped, exited, interrupted, wait_child,
  cont, limit_status, error,
}
use go_sandbox.Ptracer.Trace.{
  trace_run, State, round, on_reaped, initial, dispatch, on_stop, on_exit, on_stop_signal, on_trap,
  on_signal, handle_trap,
}
use go_sandbox.Common.Dict.{lookup, insert, delete}
use go_sandbox.Common.Int.{pos}
use go_sandbox.Ptracer.Regs.{Amd64}
use go_sandbox.Ptracer.Trace.Rounds.{round_before_exec, KeepsHandler}
use go_sandbox.Ptracer.Trace.Outcome.{FinishedIn, trace_run_verdict}
use go_sandbox.FileHandler.Handler.{TraceAction, trace_ban, trace_kill}
use go_sandbox.Ptracer.Signals.{sigtrap, ptrace_event_seccomp}

abbrev limit : Limit
limit = record { time_limit = pos 1000000000; memory_limit = 1048576 }

abbrev verdict : ℕ → Amd64 → Option (ℕ × Amd64 × TraceAction)
verdict h ctx =
    some
      (suc h, record ctx { rax = 2 ^ 64 - 13 }, if ctx.orig_rax == 2 then trace_ban else trace_kill)

abbrev th : TraceHandler ℕ
th = record {
  handle = verdict;
  syscall_name = λ ctx. "name";
  disallow = λ h name. some "Disallowed Syscall";
}

abbrev small : Rusage
small = record { utime_sec = 0; utime_usec = 500; maxrss = 64 }

abbrev large : Rusage
large = record { utime_sec = 3; utime_usec = 0; maxrss = 4096 }

abbrev regs : ℕ → Amd64
regs nr = record { orig_rax = nr; rax = 0; rdi = 0; rsi = 0; rdx = 0; r10 = 0; r8 = 0; r9 = 0 }

abbrev answers : ℕ → ℕ → Answers
answers nr now = record {
  set_option = none;
  event_msg = value 2;
  regs = value (regs nr);
  skip = none;
  now = now;
}

abbrev run : List (Wait × Answers)
run =
    (reaped 7 (stopped 19 0) small, answers 0 10)
    ∷ (reaped 7 (stopped 5 4) small, answers 0 20)
    ∷ (reaped 7 (stopped 5 7) small, answers 2 30)
    ∷ (interrupted, answers 0 40)
    ∷ (reaped 7 (exited 0) small, answers 0 50)
    ∷ []

abbrev finished : Result
finished = record {
  status = normal;
  exit_status = pos 0;
  error = "";
  time = pos 500000;
  memory = 65536;
  set_up_time = pos 15;
  running_time = pos 40;
}

run_finishes : trace_run th limit (value 7) 0 run 5 60 "panic" ≡ some finished
unfolding trace_run round on_reaped dispatch on_exit on_stop on_stop_signal on_trap on_signal
    handle_trap limit_status user_time user_mem time_sub lookup insert delete
run_finishes = refl

trace_run_verdict_example :
    (finished.status ≢ invalid) × (finished.status ≡ normal → FinishedIn th limit 7 false run)
trace_run_verdict_example = trace_run_verdict th limit 7 0 run 5 60 "panic" finished run_finishes

abbrev first : State th limit 7
first = initial th limit 7 0

abbrev stopped_first : State th limit 7
stopped_first = record first {
  traced = (7, true) ∷ [];
  result = record zero_result { status = normal; time = pos 500000; memory = 65536 };
  log = wait_child 7 ∷ set_options 7 ∷ cont 7 19 ∷ [];
}

-- a seccomp stop of a traced process that has not made its execve
abbrev early : State th limit 7
early = record first { traced = (7, true) ∷ [] }

abbrev seccomp_report : Wait
seccomp_report = reaped 7 (stopped sigtrap ptrace_event_seccomp) small

round_before_exec_example :
    KeepsHandler th limit 7 0 (round th limit 7 early seccomp_report (answers 2 30))
    × (round th limit 7 early seccomp_report
          (record (answers 2 30) { event_msg = error "none"; regs = error "none"; skip = none })
        ≡ round th limit 7 early seccomp_report (answers 2 30))
round_before_exec_example =
    round_before_exec th limit 7 early seccomp_report (answers 2 30) (error "none") (error "none")
      none refl
