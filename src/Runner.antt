-- ===== src/Runner.antt =====
-- runner: the status of a run, sizes, limits and results (status.go, size.go, limit.go, result.go).
pub mod Statuses
use go_sandbox.Common.{
  ℕ, zero, suc, ◌+◌, ◌-◌, ◌*◌, ◌/◌, ◌%◌, ◌^◌, String, Bool, true, Option, none, some, List, [], ◌∷◌,
  if◌then◌else◌, ltb, get_elem?, length, ◌&&◌,
}
use go_sandbox.Common.Int.{ℤ, pos, negsuc, sub_ℕ, signed}

-- The named values of `Status`, in the order of their numbers.
pub data Status : Type 0 where
  invalid normal time_limit_exceeded memory_limit_exceeded output_limit_exceeded : Status
  disallowed_syscall signalled nonzero_exit_status runner_error : Status

abbrev pub status_code : Status → ℕ
status_code invalid = 0
status_code normal = 1
status_code time_limit_exceeded = 2
status_code memory_limit_exceeded = 3
status_code output_limit_exceeded = 4
status_code disallowed_syscall = 5
status_code signalled = 6
status_code nonzero_exit_status = 7
status_code runner_error = 8

abbrev pub is_normal : Status → Bool
is_normal normal = true
is_normal _ = Bool.false

abbrev pub status_strings : List String
status_strings =
    "Invalid" ∷ "" ∷ "Time Limit Exceeded" ∷ "Memory Limit Exceeded" ∷ "Output Limit Exceeded"
    ∷ "Disallowed Syscall" ∷ "Signalled" ∷ "Nonzero Exit Status" ∷ "Runner Error" ∷ []

abbrev text_or_first : Option String → String
text_or_first (some s) = s
text_or_first none = "Invalid"

-- `String` of any number, in the range of the table or not
unfoldable pub status_string : ℤ → String
status_string (pos i) =
    if ltb i (length status_strings) then text_or_first (get_elem? status_strings i) else "Invalid"
status_string (negsuc i) = "Invalid"

-- A size is a uint64 count of bytes.
abbrev pub Size : Type 0
Size = ℕ

abbrev pub shr : ℕ → ℕ → ℕ
shr x k = x / 2 ^ k

abbrev pub kib : Size → ℕ
kib s = shr s 10

abbrev pub mib : Size → ℕ
mib s = shr s 20

abbrev pub gib : Size → ℕ
gib s = shr s 30

abbrev pub tib : Size → ℕ
tib s = shr s 40

abbrev pub pib : Size → ℕ
pib s = shr s 50

abbrev pub eib : Size → ℕ
eib s = shr s 60

-- time.Duration: an int64 count of nanoseconds
abbrev pub Duration : Type 0
Duration = ℤ

pub record Limit : Type 0 where
  pub time_limit : Duration
  pub memory_limit : Size

-- `error` is empty where there is none.
pub record Result : Type 0 where
  pub status : Status
  pub exit_status : ℤ
  pub error : String
  pub time : Duration
  pub memory : Size
  pub set_up_time : Duration
  pub running_time : Duration

-- the zero value of `Result`
abbrev pub zero_result : Result
zero_result = record {
  status = invalid;
  exit_status = pos 0;
  error = "";
  time = pos 0;
  memory = 0;
  set_up_time = pos 0;
  running_time = pos 0;
}

abbrev int64_max : ℕ
int64_max = 2 ^ 63 - 1

abbrev saturate : ℤ → Duration
saturate (pos n) = if ltb int64_max n then pos int64_max else pos n
saturate (negsuc n) = if ltb int64_max n then negsuc int64_max else negsuc n

-- t.Sub(u) of Go's time package: times are nanoseconds since Go's zero time, and the difference is
-- held to the range of an int64
unfoldable pub time_sub : ℕ → ℕ → Duration
time_sub t u = saturate (sub_ℕ t u)

-- What wait4 reports of resource usage: seconds, microseconds, and kibibytes.
pub record Rusage : Type 0 where
  pub utime_sec : ℕ
  pub utime_usec : ℕ
  pub maxrss : ℕ

-- time.Duration(rusage.Utime.Nano()): the sum wraps round at 64 bits
unfoldable pub user_time : Rusage → Duration
user_time r = signed 64 (r.utime_sec * 1000000000 + r.utime_usec * 1000)

-- runner.Size(rusage.Maxrss << 10)
unfoldable pub user_mem : Rusage → Size
user_mem r = (r.maxrss * 1024) % 2 ^ 64
