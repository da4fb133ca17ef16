-- ===== src/Container/Status.antt =====
-- The reply of handleExecve of container/container_exec_linux.go for a program that has been waited
-- for, and that the runners map the ends of a program alike.
use go_sandbox.Runner.{
  Limit, Status, Rusage, Duration, user_time, Size, user_mem, normal, nonzero_exit_status,
  time_limit_exceeded, output_limit_exceeded, zero_result, disallowed_syscall, signalled, Result,
}
use go_sandbox.Ptracer.Events.{
  WaitStatus, signal_status, exited, limit_status, reaped, signaled, stopped, continued,
}
use go_sandbox.Common.Int.{ℤ, pos}
use go_sandbox.Common.{
  ℕ, Option, if◌then◌else◌, some, ◌==◌, nat_eq, ◌||◌, ◌≡◌, arith, none, refl, ◌∷◌, [], ap, some-inj,
}
use go_sandbox.Unshare.{fatal_status, wait_loop, wait_from, on_status, usage_status}
use go_sandbox.Ptracer.Signals.{sigxcpu, sigkill, sigxfsz, sigsys}

pub record ExecReply : Type 0 where
  pub exit_status : ℤ
  pub status : Status
  pub time : Duration
  pub memory : Size

-- the switch on the signal
unfoldable pub reply_signal : ℕ → Status
reply_signal sig =
    if (sig == sigxcpu) || (sig == sigkill)
    then time_limit_exceeded
    else if sig == sigxfsz
    then output_limit_exceeded
    else if sig == sigsys
    then disallowed_syscall
    else signalled

abbrev pub used : Rusage → ℤ → Status → ExecReply
used ru code s = record {
  exit_status = code;
  status = s;
  time = user_time ru;
  memory = user_mem ru;
}

-- `none` is the error reply for an unknown status
unfoldable pub exec_reply_of : WaitStatus → Rusage → Option ExecReply
unfolding reply_signal
exec_reply_of (exited code) ru =
    some (used ru (pos code) (if code == 0 then normal else nonzero_exit_status))
exec_reply_of (signaled sig) ru = some (used ru (pos sig) (reply_signal sig))
exec_reply_of _ ru = none

-- The ptrace runner, the unshare runner and the container give each fatal signal the same status,
-- and the two runners compare the usage with the limits alike.
pub runners_agree :
    ((sig : ℕ) → (fatal_status sig ≡ signal_status sig) × (reply_signal sig ≡ signal_status sig))
    × ((limit : Limit) (ru : Rusage) (s : Status)
        → usage_status limit ru s ≡ limit_status limit ru s)
unfolding fatal_status signal_status reply_signal usage_status limit_status
runners_agree = (λ sig. ground arith, λ limit ru s. refl)

-- the result of a host for a reply, without its times
abbrev pub as_result : ExecReply → Option Result
as_result q = some (record zero_result {
  status = q.status;
  exit_status = q.exit_status;
  time = q.time;
  memory = q.memory;
})

-- A program that ends within the limits has the same status, exit status, time and memory from the
-- container and from the unshare runner.
pub exec_reply_of-wait_loop :
    (limit : Limit) (w : WaitStatus) (ru : Rusage) (p : ℕ) (reply : ExecReply)
    → usage_status limit ru normal ≡ normal
    → exec_reply_of w ru ≡ some reply
    → wait_loop limit (reaped p w ru ∷ []) ≡ as_result reply
unfolding wait_loop wait_from exec_reply_of on_status fatal_status reply_signal
exec_reply_of-wait_loop limit (exited code) ru p reply h e =
    rw h (ap (λ q. as_result q) (some-inj e))
exec_reply_of-wait_loop limit (signaled sig) ru p reply h e =
    rw h (ap (λ q. as_result q) (some-inj e))
exec_reply_of-wait_loop limit (stopped a b) ru p reply h e = ground arith
exec_reply_of-wait_loop limit continued ru p reply h e = ground arith
