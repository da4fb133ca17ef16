-- ===== src/Ptracer/Events.antt =====
-- What the loop of ptracer/tracer_track_linux.go reads from the kernel and asks of it, and how it
-- reads signals, limits and seccomp messages.
use go_sandbox.Common.{ℕ, String, Bool, Option, if◌then◌else◌, ltb, ◌==◌, nat_eq}
use go_sandbox.Common.Int.{ℤ, pos, negsuc, ltℤ, signed}
use go_sandbox.Runner.{
  Status, time_limit_exceeded, memory_limit_exceeded, output_limit_exceeded, disallowed_syscall,
  signalled, Limit, Rusage, user_time, user_mem,
}
use go_sandbox.Ptracer.Signals.{sigkill, sigxcpu, sigxfsz, sigsys}
use go_sandbox.Ptracer.Regs.{Amd64}
use go_sandbox.FileHandler.Handler.{TraceAction}

-- A wait status. A stop carries its signal and the ptrace event.
pub data WaitStatus : Type 0 where
  exited : ℕ → WaitStatus
  signaled : ℕ → WaitStatus
  stopped : ℕ → ℕ → WaitStatus
  continued : WaitStatus

pub data Wait : Type 0 where
  interrupted : Wait
  failed : String → Wait
  reaped : ℕ → WaitStatus → Rusage → Wait

-- A value or the text of an error.
pub data OrError (A : Type 0) : Type 0 where
  value : A → OrError A
  error : String → OrError A

-- What the ptrace calls of one round answer, and the time at its end.
pub record Answers : Type 0 where
  pub set_option : Option String
  pub event_msg : OrError ℕ
  pub regs : OrError Amd64
  pub skip : Option String
  pub now : ℕ

-- The calls made, in order.
pub data Call : Type 0 where
  wait_child wait_group : ℕ → Call
  set_options : ℕ → Call
  cont : ℕ → ℕ → Call
  skipped : ℕ → Amd64 → Call
  kill_all collect_zombie : ℕ → Call

-- ptracer.Handler with a state of its own; `none` of `handle` is a panic. The error of
-- GetSyscallName is only printed.
pub record TraceHandler (H : Type 0) : Type 0 where
  pub handle : H → Amd64 → Option (H × Amd64 × TraceAction)
  pub syscall_name : Amd64 → String
  pub disallow : H → String → Option String

-- the mapping of a fatal signal
unfoldable pub signal_status : ℕ → Status
signal_status sig =
    if sig == sigxcpu
    then time_limit_exceeded
    else if sig == sigkill
    then time_limit_exceeded
    else if sig == sigxfsz
    then output_limit_exceeded
    else if sig == sigsys
    then disallowed_syscall
    else signalled

-- the check of a stop signal against the rlimits
unfoldable pub stop_status : ℕ → Status → Status
stop_status sig status =
    if sig == sigxcpu
    then time_limit_exceeded
    else if sig == sigxfsz
    then output_limit_exceeded
    else status

abbrev pub over_time : Limit → Rusage → Bool
over_time limit ru = ltℤ limit.time_limit (user_time ru)

abbrev pub over_memory : Limit → Rusage → Bool
over_memory limit ru = ltb limit.memory_limit (user_mem ru)

-- tle / mle: the memory limit is tested last
unfoldable pub limit_status : Limit → Rusage → Status → Status
limit_status limit ru status =
    if over_memory limit ru
    then memory_limit_exceeded
    else if over_time limit ru
    then time_limit_exceeded
    else status

-- seccomp.MsgDisallow and seccomp.MsgHandle, read from int16(msg)
pub data Msg : Type 0 where
  msg_disallow msg_handle msg_unknown : Msg

abbrev pub msg_of : ℤ → Msg
msg_of (pos n) = if n == 1 then msg_disallow else if n == 2 then msg_handle else msg_unknown
msg_of (negsuc n) = msg_unknown

unfoldable pub read_msg : ℕ → Msg
read_msg msg = msg_of (signed 16 msg)
