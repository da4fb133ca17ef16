-- ===== src/Ptracer/Trace.antt =====
-- ptracer/tracer_track_linux.go: the loop that waits for the traced processes. A round takes what
-- wait4 returned and what the ptrace calls of that round answer; the calls made are logged. A
-- cancelled context shows as processes that were killed, since it only sends SIGKILL to the group.
pub mod Verdicts
pub mod Outcome
pub mod Rounds
pub mod Kept
pub mod Options
use go_sandbox.Common.{
  ℕ, zero, suc, String, Bool, true, false, not, Option, none, some, List, [], ◌∷◌, ◌++◌,
  if◌then◌else◌, ltb, ◌==◌, nat_eq,
}
use go_sandbox.Common.Dict.{Dict, lookup, insert, delete}
use go_sandbox.Common.Int.{ℤ, pos, negsuc, ltℤ, signed}
use go_sandbox.Runner.{
  Status, normal, time_limit_exceeded, memory_limit_exceeded, output_limit_exceeded,
  disallowed_syscall, signalled, nonzero_exit_status, runner_error, is_normal, Duration, Size,
  Limit, Result, zero_result, time_sub, Rusage, user_time, user_mem,
}
use go_sandbox.Ptracer.Signals.{
  sigtrap, sigkill, sigxcpu, sigxfsz, sigsys, ptrace_event_exec, ptrace_event_seccomp,
}
use go_sandbox.Ptracer.Regs.{Amd64, skip_syscall}
use go_sandbox.FileHandler.Handler.{TraceAction, trace_allow, trace_ban, trace_kill}
use go_sandbox.Ptracer.Events.{
  WaitStatus, exited, signaled, stopped, continued, Wait, interrupted, failed, reaped, OrError,
  value, error, Answers, Call, wait_child, wait_group, set_options, cont, skipped, kill_all,
  collect_zombie, TraceHandler, signal_status, stop_status, limit_status, Msg, msg_disallow,
  msg_handle, msg_unknown, read_msg,
}

abbrev pub is_traced : Option Bool → Bool
is_traced (some b) = b
is_traced none = false

module _ {H : Type 0} (th : TraceHandler H) (limit : Limit) (pgid : ℕ) where
  pub record State : Type 0 where
    pub status : Status
    pub traced : Dict ℕ Bool
    pub execved : Bool
    pub f_time : ℕ
    pub result : Result
    pub handler : H
    pub log : List Call

  -- How a round ends: in the next one, in a return, or in a panic with its text.
  pub data Round : Type 0 where
    next : State → Round
    return : State → Round
    panicked : State → Round

  abbrev pub logged : Call → State → State
  logged c s = record s { log = s.log ++ c ∷ [] }

  abbrev pub return_error : State → Status → String → Round
  return_error s status message =
      return (record s { result = record s.result { status = status; error = message } })

  abbrev pub return_status : State → Status → Round
  return_status s status = return (record s { result = record s.result { status = status } })

  -- The error of handleTrap, if any, or a panic.
  pub data Trapped : Type 0 where
    passed : State → Trapped
    refused : State → String → Trapped
    trap_panicked : State → Trapped

  abbrev pub or_refused : State → Option String → Trapped
  or_refused s none = passed s
  or_refused s (some message) = refused s message

  abbrev pub disallowed_text : String
  disallowed_text = "Disallowed Syscall"

  -- the switch on the action that the handler returns
  unfoldable pub after_handle : ℕ → Answers → State → Option (H × Amd64 × TraceAction) → Trapped
  after_handle pid ans s none = trap_panicked s
  after_handle pid ans s (some (h, ctx, trace_allow)) = passed (record s { handler = h })
  after_handle pid ans s (some (h, ctx, trace_ban)) =
      or_refused (logged (skipped pid (skip_syscall ctx)) (record s { handler = h })) ans.skip
  after_handle pid ans s (some (h, ctx, trace_kill)) =
      refused (record s { handler = h }) disallowed_text

  abbrev pub trap_with_regs : ℕ → Answers → State → Msg → OrError Amd64 → Trapped
  trap_with_regs pid ans s msg_unknown _ = passed s
  trap_with_regs pid ans s _ (error message) = refused s message
  trap_with_regs pid ans s msg_disallow (value ctx) =
      or_refused s (th.disallow s.handler (th.syscall_name ctx))
  trap_with_regs pid ans s msg_handle (value ctx) = after_handle pid ans s (th.handle s.handler ctx)

  abbrev pub trap_with_msg : ℕ → Answers → State → OrError ℕ → Trapped
  trap_with_msg pid ans s (error message) = refused s message
  trap_with_msg pid ans s (value msg) = trap_with_regs pid ans s (read_msg msg) ans.regs

  unfoldable pub handle_trap : ℕ → Answers → State → Trapped
  unfolding after_handle read_msg
  handle_trap pid ans s = trap_with_msg pid ans s ans.event_msg

  abbrev pub after_trap : ℕ → Trapped → Round
  after_trap pid (passed s) = next (logged (cont pid 0) s)
  after_trap pid (refused s message) = return_error s disallowed_syscall message
  after_trap pid (trap_panicked s) = panicked s

  -- a stop by SIGTRAP
  unfoldable pub on_trap : ℕ → ℕ → Answers → State → Round
  on_trap pid cause ans s =
      if cause == ptrace_event_seccomp
      then (if s.execved
          then after_trap pid (handle_trap pid ans s)
          else next (logged (cont pid 0) s))
      else if cause == ptrace_event_exec
      then (if not s.execved
          then next (logged (cont pid 0) (record s { f_time = ans.now; execved = true }))
          else next (logged (cont pid 0) s))
      else next (logged (cont pid 0) s)

  -- a stop by any other signal
  unfoldable pub on_signal : ℕ → ℕ → State → Round
  unfolding stop_status
  on_signal pid sig s =
      let status = stop_status sig s.status in
      if not (is_normal status)
      then return_status (record s { status = status }) status
      else next (logged (cont pid sig) (record s { status = status }))

  unfoldable pub on_stop_signal : ℕ → ℕ → ℕ → Answers → State → Round
  on_stop_signal pid sig cause ans s =
      if sig == sigtrap then on_trap pid cause ans s else on_signal pid sig s

  abbrev pub with_options : ℕ → State → State
  with_options pid s = logged (set_options pid) (record s { traced = insert pid true s.traced })

  abbrev pub after_options : ℕ → ℕ → ℕ → Answers → State → Option String → Round
  after_options pid sig cause ans s none = on_stop_signal pid sig cause ans s
  after_options pid sig cause ans s (some message) = return_error s runner_error message

  unfoldable pub on_stop : ℕ → ℕ → ℕ → Answers → State → Round
  on_stop pid sig cause ans s =
      if not (is_traced (lookup pid s.traced))
      then after_options pid sig cause ans (with_options pid s) ans.set_option
      else on_stop_signal pid sig cause ans s

  unfoldable pub on_exit : ℕ → ℕ → State → Round
  on_exit pid code s =
      let t = record s { traced = delete pid s.traced } in
      if pid == pgid
      then (if s.execved
          then return (record t {
            result = record s.result {
              exit_status = pos code;
              status = if code == 0 then normal else nonzero_exit_status;
            };
          })
          else return_error t runner_error "child process exit before execve")
      else next t

  unfoldable pub on_kill : ℕ → ℕ → State → Round
  unfolding signal_status
  on_kill pid sig s =
      if pid == pgid
      then return (record s {
        traced = delete pid s.traced;
        status = signal_status sig;
        result = record s.result { status = signal_status sig; exit_status = pos sig };
      })
      else next (logged (cont pid sig) s)

  -- the switch on the wait status
  unfoldable pub dispatch : ℕ → WaitStatus → Answers → State → Round
  dispatch pid (exited code) ans s = on_exit pid code s
  dispatch pid (signaled sig) ans s = on_kill pid sig s
  dispatch pid (stopped sig cause) ans s = on_stop pid sig cause ans s
  dispatch pid continued ans s = next s

  -- the result that the usage of the main process gives
  abbrev pub measured : Rusage → State → State
  measured ru s = record s {
    status = limit_status limit ru s.status;
    result = record zero_result {
      status = limit_status limit ru s.status;
      time = user_time ru;
      memory = user_mem ru;
    };
  }

  unfoldable pub on_reaped : ℕ → WaitStatus → Rusage → Answers → State → Round
  on_reaped pid ws ru ans s =
      if pid == pgid
      then (if not (is_normal (limit_status limit ru s.status))
          then return (measured ru s)
          else dispatch pid ws ans (measured ru s))
      else dispatch pid ws ans s

  abbrev pub waiting : State → State
  waiting s = logged (if s.execved then wait_group pgid else wait_child pgid) s

  -- one round of the loop
  unfoldable pub round : State → Wait → Answers → Round
  round s interrupted ans = next (waiting s)
  round s (failed message) ans = return_error (waiting s) runner_error message
  round s (reaped pid ws ru) ans = on_reaped pid ws ru ans (waiting s)

  pub data Ending : Type 0 where
    returned : State → Ending
    recovered : State → Ending

  -- The loop, over the rounds that the kernel gives; `none` while it still waits.
  unfoldable pub loop : State → List (Wait × Answers) → Option Ending
  loop s [] = none
  loop s ((w, ans) ∷ rounds) = elim (round s w ans) [
    | next s' ↦ loop s' rounds
    | return s' ↦ some (returned s')
    | panicked s' ↦ some (recovered s')
  ]

  -- the deferred function: a panic becomes a runner error, and all tracees are killed and reaped
  abbrev pub cleaned : ℕ → ℕ → State → State
  cleaned s_time end_time s = record s {
    log = s.log ++ kill_all pgid ∷ collect_zombie pgid ∷ [];
    result = record s.result {
      set_up_time = time_sub s.f_time s_time;
      running_time = time_sub end_time s.f_time;
    };
  }

  unfoldable pub deferred : ℕ → ℕ → String → Ending → State
  deferred s_time end_time panic_text (returned s) = cleaned s_time end_time s
  deferred s_time end_time panic_text (recovered s) =
      cleaned s_time end_time
        (record s { result = record s.result { status = runner_error; error = panic_text } })

  abbrev pub initial : H → State
  initial h = record {
    status = normal;
    traced = [];
    execved = false;
    f_time = 0;
    result = zero_result;
    handler = h;
    log = [];
  }

-- The end of a run as a result: the deferred function runs once the child has started.
abbrev pub finish :
    {H : Type 0} (th : TraceHandler H) (limit : Limit) (pgid s_time end_time : ℕ)
    → String
    → Option (Ending th limit pgid)
    → Option Result
finish th limit pgid s_time end_time panic_text none = none
finish th limit pgid s_time end_time panic_text (some e) =
    some (deferred th limit pgid s_time end_time panic_text e).result

-- TraceRun: `start` is what the runner's Start returns.
unfoldable pub trace_run :
    {H : Type 0} (th : TraceHandler H) (limit : Limit) (start : OrError ℕ) (h : H)
    → List (Wait × Answers)
    → (s_time end_time : ℕ) → String
    → Option Result
unfolding deferred loop
trace_run th limit (error message) h rounds s_time end_time panic_text =
    some (record zero_result { status = runner_error; error = message })
trace_run th limit (value pgid) h rounds s_time end_time panic_text =
    finish th limit pgid s_time end_time panic_text
      (loop th limit pgid (initial th limit pgid h) rounds)
