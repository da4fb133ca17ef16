-- ===== src/RunProg/Start.antt =====
-- start of cmd/runprog/main_linux.go and the files of fileutil.go: what is acquired, in which order, and
-- released on each way out. What the calls answer is a record.
use go_sandbox.Common.{
  [], ◌∷◌, none, some, true, false, ℕ, List, Option, String, Bool, if◌then◌else◌, ◌==◌, nat_eq, suc,
  ◌+◌, ◌^◌, zero, ◌-◌, ◌%◌,
}
use go_sandbox.Ptracer.Events.{OrError, error, value}
use go_sandbox.Runner.{Result, Duration, runner_error}
use go_sandbox.Common.Int.{signed, pos, negsuc}

pub data Resource : Type 0 where
  input output error_file : Resource
  cgroup_dirs source_file memory_file temp_root environment : Resource

abbrev pub resource_code : Resource → ℕ
resource_code input = 0
resource_code output = 1
resource_code error_file = 2
resource_code cgroup_dirs = 3
resource_code source_file = 4
resource_code memory_file = 5
resource_code temp_root = 6
resource_code environment = 7

-- What is held, the newest first.
abbrev pub Held : Type 0
Held = List Resource

abbrev pub release : Resource → Held → Held
release r [] = []
release r (q ∷ qs) =
    let rest = release r qs in if resource_code q == resource_code r then qs else q ∷ rest

-- defer, at the return with a result
abbrev pub releasing : {A : Type 0} → Resource → A × Held → A × Held
releasing r (x, h) = (x, release r h)

-- if err != nil { return nil, err }
abbrev pub or_fail : {A : Type 0} → Option String → Held → OrError A × Held → OrError A × Held
or_fail (some e) h r = (error e, h)
or_fail none h r = r

pub data RunnerKind : Type 0 where
  container_runner ns_runner ptrace_runner : RunnerKind
  unknown_runner : String → RunnerKind

-- What the calls answer. The errors of the files stand only where a name is given.
pub record StartAnswers : Type 0 where
  pub mounts_error : Option String
  pub filter_env_error : Option String
  pub cgroup_error : Option String
  pub memory_limit_error : Option String
  pub open_error : Option String
  pub memfd_error : Option String
  pub input_error : Option String
  pub output_error : Option String
  pub error_file_error : Option String
  pub temp_dir_error : Option String
  pub filter_error : Option String
  pub build_error : Option String
  pub ping_error : Option String
  pub run : Result
  pub interrupted : Bool
  pub setup : Duration × Duration
  pub cpu_usage : OrError ℕ
  pub max_usage : OrError ℕ
  pub cache : OrError ℕ

pub record StartOptions : Type 0 where
  pub use_cgroup : Bool
  pub memfile : Bool
  pub named_input : Bool
  pub named_output : Bool
  pub named_error : Bool
  pub runner : RunnerKind

-- prepareFiles: a file that cannot be opened closes those before it
abbrev pub open_named :
    Bool
    → Option String
    → Resource
    → (Held → Held)
    → (Held → OrError Unit × Held)
    → Held
    → OrError Unit × Held
open_named false err r close rest h = rest h
open_named true (some e) r close rest h = (error e, close h)
open_named true none r close rest h = rest (r ∷ h)

abbrev pub close_named : Bool → Resource → Held → Held
close_named false r h = h
close_named true r h = release r h

module _ (a : StartAnswers) (o : StartOptions) where
  -- closeFiles, which skips a nil file
  unfoldable pub close_files : Held → Held
  close_files h =
      close_named o.named_error error_file
        (close_named o.named_output output (close_named o.named_input input h))

  unfoldable pub prepare_files : Held → OrError Unit × Held
  prepare_files =
      open_named o.named_input a.input_error input (λ h. h)
        (open_named o.named_output a.output_error output (close_named o.named_input input) (
          open_named o.named_error a.error_file_error error_file
            (λ h. close_named o.named_output output (close_named o.named_input input h))
            (λ h. (value tt, h))))

  -- an interrupt makes any result a runner error
  unfoldable pub run_program : Result
  run_program =
      let rt = if a.interrupted then record a.run { status = runner_error } else a.run in
      elim rt.set_up_time [
        | pos zero ↦ record rt { set_up_time = a.setup.0; running_time = a.setup.1 }
        | pos (suc n) ↦ rt
        | negsuc n ↦ rt
      ]

  -- the cpu time and memory of the cgroup; the difference of two uint64 wraps
  unfoldable pub with_usage : Result → OrError Result
  with_usage rt = elim a.cpu_usage [
    | error e ↦ error e
    | value cpu ↦ elim a.max_usage [
      | error e ↦ error e
      | value memory ↦ elim a.cache [
        | error e ↦ error e
        | value cache ↦
            value (record rt { time = signed 64 cpu; memory = (memory + 2 ^ 64 - cache) % 2 ^ 64 })
      ]
    ]
  ]

  unfoldable pub finish_run : OrError Result
  unfolding run_program with_usage
  finish_run = if o.use_cgroup then with_usage run_program else value run_program

  unfoldable pub with_runner : RunnerKind → Held → OrError Result × Held
  unfolding finish_run
  with_runner container_runner h = or_fail a.temp_dir_error h (
      releasing temp_root (
        or_fail a.build_error (temp_root ∷ h) (
          releasing environment (
            or_fail a.ping_error (environment ∷ temp_root ∷ h)
              (finish_run, environment ∷ temp_root ∷ h)))))
  with_runner ns_runner h =
      or_fail a.filter_error h
        (or_fail a.temp_dir_error h (releasing temp_root (finish_run, temp_root ∷ h)))
  with_runner ptrace_runner h = or_fail a.filter_error h (finish_run, h)
  with_runner (unknown_runner name) h = (error "invalid runner type", h)

  abbrev pub behind_files : OrError Unit × Held → OrError Result × Held
  behind_files (error e, h) = (error e, h)
  behind_files (value u, h) = let (rt, h') = with_runner o.runner h in (rt, close_files h')

  unfoldable pub at_files : Held → OrError Result × Held
  unfolding prepare_files with_runner close_files
  at_files h = behind_files (prepare_files h)

  -- the file is read into memory, and closed unless that fails
  unfoldable pub at_memfile : Held → OrError Result × Held
  unfolding at_files
  at_memfile h =
      if o.memfile
      then or_fail a.open_error h (
          or_fail a.memfd_error (source_file ∷ h)
            (releasing memory_file (at_files (memory_file ∷ h))))
      else at_files h

  unfoldable pub at_cgroup : Held → OrError Result × Held
  unfolding at_memfile
  at_cgroup h =
      if o.use_cgroup
      then or_fail a.filter_env_error h (
          or_fail a.cgroup_error h (
            releasing cgroup_dirs
              (or_fail a.memory_limit_error (cgroup_dirs ∷ h) (at_memfile (cgroup_dirs ∷ h)))))
      else at_memfile h

  unfoldable pub start_program : Held → OrError Result × Held
  unfolding at_cgroup
  start_program h = or_fail a.mounts_error h (at_cgroup h)
