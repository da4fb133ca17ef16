-- ===== src/RunProg/Darwin.antt =====
-- start of cmd/runprog/main_darwin.go, whose main is the one of main_linux.go but for the debug output.
-- What the calls answer is a record; wait4 answers a list, each with the time of its answer.
pub mod Failing
use go_sandbox.Common.{
  [], ◌∷◌, none, some, ℕ, List, Option, String, if◌then◌else◌, ltb, ◌==◌, nat_eq, suc, ◌+◌, ◌*◌,
  ◌^◌, ◌%◌,
}
use go_sandbox.Common.Int.{pos, signed, unsigned}
use go_sandbox.Rlimit.{RLimits}
use go_sandbox.RunProg.{Limits, shl20}
use go_sandbox.Runner.{
  Result, Status, Rusage, zero_result, user_time, time_sub, normal, time_limit_exceeded,
  memory_limit_exceeded, nonzero_exit_status,
}
use go_sandbox.Unshare.{fatal_status}
use go_sandbox.Ptracer.Events.{
  OrError, value, error, Wait, WaitStatus, interrupted, failed, reaped, exited, signaled,
}

pub record DarwinAnswers : Type 0 where
  pub files_error : Option String
  pub profile_error : Option String
  pub start_error : Option String
  pub started_at : ℕ
  pub synced_at : ℕ
  pub waits : List (Wait × ℕ)

-- A file that is not named keeps the number of its place.
unfoldable pub fds_from : ℕ → List (Option ℕ) → List ℕ
fds_from i [] = []
fds_from i (none ∷ fs) = i ∷ fds_from (suc i) fs
fds_from i (some fd ∷ fs) = fd ∷ fds_from (suc i) fs

unfoldable pub darwin_rlimits : Limits → RLimits
darwin_rlimits l = record {
  cpu = l.time_limit;
  cpu_hard = l.real_time_limit;
  data_size = shl20 l.memory_limit;
  file_size = shl20 l.output_limit;
  stack = shl20 l.stack_limit;
  address_space = shl20 l.memory_limit;
}

-- The two tests, the memory last. The sizes of Rusage are in bytes here.
unfoldable pub limit_verdict : Limits → Rusage → Status
limit_verdict l ru =
    if ltb (shl20 l.memory_limit) ru.maxrss
    then memory_limit_exceeded
    else if ltb (l.time_limit * 1000000000 % 2 ^ 64) (unsigned 64 (user_time ru))
    then time_limit_exceeded
    else normal

abbrev pub ended_result : Status → ℕ → ℕ → ℕ → Rusage → Result
ended_result s s_time m_time f_time ru = record zero_result {
  status = s;
  time = user_time ru;
  memory = ru.maxrss;
  set_up_time = time_sub m_time s_time;
  running_time = time_sub f_time m_time;
}

-- The switch: what it does not return for is waited for again. The signals are the ones of
-- runner/unshare/run_linux.go.
unfoldable pub ended_by : WaitStatus → Result → Option Result
ended_by (exited code) r =
    if code == 0 then none else some (record r { status = nonzero_exit_status })
ended_by (signaled sig) r = some (record r { status = fatal_status sig; exit_status = pos sig })
ended_by _ r = none

abbrev pub or_wait : Option Result → Option (OrError Result) → Option (OrError Result)
or_wait none rest = rest
or_wait (some r) rest = some (value r)

-- `none` is a process that has not ended.
unfoldable pub darwin_wait_loop : Limits → ℕ → ℕ → List (Wait × ℕ) → Option (OrError Result)
unfolding ended_by limit_verdict
darwin_wait_loop l s m [] = none
darwin_wait_loop l s m ((interrupted, f) ∷ ws) = darwin_wait_loop l s m ws
darwin_wait_loop l s m ((failed e, f) ∷ ws) = some (error e)
darwin_wait_loop l s m ((reaped pid w ru, f) ∷ ws) =
    or_wait (ended_by w (ended_result (limit_verdict l ru) s m f ru)) (darwin_wait_loop l s m ws)

abbrev pub or_return : Option String → Option (OrError Result) → Option (OrError Result)
or_return (some e) rest = some (error e)
or_return none rest = rest

unfoldable pub start_darwin : Limits → DarwinAnswers → Option (OrError Result)
unfolding darwin_wait_loop
start_darwin l a = or_return a.files_error (
    or_return a.profile_error
      (or_return a.start_error (darwin_wait_loop l a.started_at a.synced_at a.waits)))
