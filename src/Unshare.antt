-- ===== src/Unshare.antt =====
-- The runner of runner/unshare/run_linux.go: trace, which waits for a process in its own namespaces.
-- What wait4 answers is a list; a list that runs out is a process that has not ended.
pub mod Verdict
use go_sandbox.Runner.{
  Limit, Result, Status, Rusage, zero_result, user_time, user_mem, normal, runner_error,
  memory_limit_exceeded, nonzero_exit_status, time_sub, is_normal, time_limit_exceeded,
  output_limit_exceeded, disallowed_syscall, signalled,
}
use go_sandbox.Ptracer.Events.{Wait, WaitStatus, exited, failed, reaped, signaled, interrupted}
use go_sandbox.Common.{
  ℕ, Option, List, none, String, if◌then◌else◌, ltb, some, ◌∷◌, ◌==◌, nat_eq, ◌||◌, [],
}
use go_sandbox.Ptracer.Signals.{sigxcpu, sigkill, sigxfsz, sigsys}
use go_sandbox.Common.Int.{ltℤ, pos}

-- the mapping of a fatal signal
unfoldable pub fatal_status : ℕ → Status
fatal_status sig =
    if (sig == sigxcpu) || (sig == sigkill)
    then time_limit_exceeded
    else if sig == sigxfsz
    then output_limit_exceeded
    else if sig == sigsys
    then disallowed_syscall
    else signalled

-- check tle / mle
unfoldable pub usage_status : Limit → Rusage → Status → Status
usage_status limit ru s =
    if ltb limit.memory_limit (user_mem ru)
    then memory_limit_exceeded
    else if ltℤ limit.time_limit (user_time ru)
    then time_limit_exceeded
    else s

-- result = runner.Result{ ... }
abbrev pub usage_result : Limit → Rusage → Status → Result
usage_result limit ru s = record zero_result {
  status = usage_status limit ru s;
  time = user_time ru;
  memory = user_mem ru;
}

-- The switch on the wait status: a process that has only stopped is waited for again.
unfoldable pub on_status : WaitStatus → Result → Option Result
unfolding fatal_status
on_status (exited code) r = some (record r {
  status = if code == 0 then normal else nonzero_exit_status;
  exit_status = pos code;
})
on_status (signaled sig) r = some (record r { status = fatal_status sig; exit_status = pos sig })
on_status _ r = none

abbrev pub or_else : Option Result → Option Result → Option Result
or_else (some a) b = some a
or_else none b = b

abbrev pub map_option : (Result → Result) → Option Result → Option Result
map_option f none = none
map_option f (some r) = some (f r)

-- The loop, from the result that the report before has left. `status` is normal as long as it goes on.
unfoldable pub wait_from : Limit → Result → List Wait → Option Result
unfolding on_status usage_status
wait_from limit before [] = none
wait_from limit before (interrupted ∷ ws) = wait_from limit before ws
wait_from limit before (failed e ∷ ws) = some (record before { status = runner_error; error = e })
wait_from limit before (reaped _ w ru ∷ ws) =
    let r = usage_result limit ru normal in
    let rest = wait_from limit r ws in
    if is_normal r.status then or_else (on_status w r) rest else some r

unfoldable pub wait_loop : Limit → List Wait → Option Result
unfolding wait_from
wait_loop limit ws = wait_from limit zero_result ws

-- Start, the loop, and the deferred times: fTime is zero until the process has started.
unfoldable pub unshare_trace :
    Limit → Option String → List Wait → (s_time f_time now : ℕ) → Option Result
unfolding wait_loop
unshare_trace limit (some e) ws s_time f_time now =
    some (record zero_result { status = runner_error; error = e })
unshare_trace limit none ws s_time f_time now =
    map_option
      (λ r. record r { set_up_time = time_sub f_time s_time; running_time = time_sub now f_time })
      (wait_loop limit ws)
