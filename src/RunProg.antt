-- ===== src/RunProg.antt =====
-- cmd/runprog: the limits that the flags give, the numbers of the statuses, and what main prints
-- (main_linux.go, main.go). Sizes and seconds are uint64.
pub mod Start
pub mod Released
pub mod Normalized
pub mod Darwin
use go_sandbox.Common.{
  [], ◌∷◌, none, some, true, false, ℕ, if◌then◌else◌, ltb, ◌*◌, ◌/◌, suc, ◌+◌, ◌^◌, ◌%◌, ◌-◌,
}
use go_sandbox.Rlimit.{RLimits}
use go_sandbox.Runner.{
  Limit, Status, Result, zero_result, normal, runner_error, invalid, is_normal, time_limit_exceeded,
  memory_limit_exceeded, output_limit_exceeded, disallowed_syscall, signalled, nonzero_exit_status,
}
use go_sandbox.Common.Int.{ℤ, signed, pos, negsuc}
use go_sandbox.Ptracer.Events.{OrError, error, value}
use go_sandbox.ForkExec.Config.{Credential}

-- The flags that limit the program: seconds, and mebibytes.
pub record Limits : Type 0 where
  pub time_limit : ℕ
  pub real_time_limit : ℕ
  pub memory_limit : ℕ
  pub output_limit : ℕ
  pub stack_limit : ℕ

unfoldable pub normalize_limits : Limits → Limits
normalize_limits l =
    let t =
      if ltb l.real_time_limit l.time_limit
      then record l { real_time_limit = (l.time_limit + 2) % 2 ^ 64 }
      else l in
    if ltb t.memory_limit t.stack_limit then record t { stack_limit = t.memory_limit } else t

-- x << 20
abbrev pub shl20 : ℕ → ℕ
shl20 x = x * 2 ^ 20 % 2 ^ 64

unfoldable pub rlimits_of : Limits → RLimits
rlimits_of l = record {
  cpu = l.time_limit;
  cpu_hard = l.real_time_limit;
  data_size = 0;
  file_size = shl20 l.output_limit;
  stack = shl20 l.stack_limit;
  address_space = 0;
}

-- time.Duration(timeLimit) * time.Second wraps at 64 bits.
unfoldable pub limit_of : Limits → Limit
limit_of l = record {
  time_limit = signed 64 (l.time_limit * 1000000000);
  memory_limit = shl20 l.memory_limit;
}

-- The numbers of uoj's run_program
unfoldable pub get_status : Status → ℕ
get_status normal = 0
get_status invalid = 1
get_status time_limit_exceeded = 4
get_status memory_limit_exceeded = 3
get_status output_limit_exceeded = 5
get_status disallowed_syscall = 6
get_status signalled = 2
get_status nonzero_exit_status = 2
get_status runner_error = 7

-- "%d %d %d %d\n", and the exit code of main
pub record Report : Type 0 where
  pub status_number : ℕ
  pub milliseconds : ℤ
  pub kibibytes : ℕ
  pub exit_status : ℤ
  pub exit_code : ℕ

-- int(rt.Time / time.Millisecond): the division cuts towards zero
abbrev pub div_ms : ℤ → ℤ
div_ms (pos n) = pos (n / 1000000)
div_ms (negsuc n) = if ltb n 999999 then pos 0 else negsuc (suc n / 1000000 - 1)

abbrev pub line : ℕ → ℕ → Result → Report
line n code rt = record {
  status_number = n;
  milliseconds = div_ms rt.time;
  kibibytes = rt.memory / 2 ^ 10;
  exit_status = rt.exit_status;
  exit_code = code;
}

abbrev failed_result : Result
failed_result = record zero_result { status = runner_error }

abbrev pub code_of : Status → ℕ
code_of runner_error = 1
code_of _ = 0

-- main behind the call of start: an error that is no status counts as a runner error
unfoldable pub report : OrError Result → Report
unfolding get_status
report (error e) = line (get_status runner_error) 1 failed_result
report (value rt) =
    if is_normal rt.status then line 0 0 rt else line (get_status rt.status) (code_of rt.status) rt

-- newCredGen and Get, whose counter is a uint32 that atomic.AddUint32 counts up
abbrev pub new_cred_gen : ℕ
new_cred_gen = 10000

unfoldable pub cred_get : ℕ → Credential × ℕ
cred_get cur =
    let n = suc cur % 2 ^ 32 in (record { uid = n; gid = n; groups = []; no_set_groups = false }, n)
