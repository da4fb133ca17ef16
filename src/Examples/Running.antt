-- ===== src/Examples/Running.antt =====
-- A run whose executable cannot be copied to memory, with a cgroup and an input file.
use go_sandbox.Common.{[], ◌∷◌, none, some, true, false, ◌≡◌, refl, ◌≢◌}
use go_sandbox.RunProg.Start.{
  StartAnswers, StartOptions, start_program, container_runner, at_cgroup, at_memfile, source_file,
}
use go_sandbox.RunProg.{Limits, report}
use go_sandbox.Memfd.{MemAnswers}
use go_sandbox.RunProg.Darwin.{DarwinAnswers, start_darwin}
use go_sandbox.RunProg.Darwin.Failing.{start_darwin-report}
use go_sandbox.RunProg.Released.{Released, start_program-Released}
use go_sandbox.Runner.{zero_result, normal}
use go_sandbox.Common.Int.{pos}
use go_sandbox.Ptracer.Events.{value, reaped, error, exited, interrupted, failed}

abbrev copy_fails : StartAnswers
copy_fails = record {
  mounts_error = none;
  filter_env_error = none;
  cgroup_error = none;
  memory_limit_error = none;
  open_error = none;
  memfd_error = some "no space";
  input_error = none;
  output_error = none;
  error_file_error = none;
  temp_dir_error = none;
  filter_error = none;
  build_error = none;
  ping_error = none;
  run = record zero_result { status = normal };
  interrupted = false;
  setup = (pos 1, pos 2);
  cpu_usage = value 5;
  max_usage = value 100;
  cache = value 30;
}

abbrev with_memfile : StartOptions
with_memfile = record {
  use_cgroup = true;
  memfile = true;
  named_input = true;
  named_output = false;
  named_error = false;
  runner = container_runner;
}

start_program-Released_example :
    Released (some "no space") [] (start_program copy_fails with_memfile [])
start_program-Released_example = start_program-Released copy_fails with_memfile []

source_is_left : (start_program copy_fails with_memfile []).1 ≡ source_file ∷ []
unfolding start_program at_cgroup at_memfile
source_is_left = refl

-- A program on Darwin that exits with code 0, an interrupt, and a wait for which no child is left.
abbrev exits_well : DarwinAnswers
exits_well = record {
  files_error = none;
  profile_error = none;
  start_error = none;
  started_at = 5;
  synced_at = 10;
  waits =
      (reaped 7 (exited 0) (record { utime_sec = 0; utime_usec = 9; maxrss = 64 }), 20)
      ∷ (interrupted, 21)
      ∷ (failed "no child processes", 22)
      ∷ [];
}

abbrev small_limits : Limits
small_limits = record {
  time_limit = 1;
  real_time_limit = 3;
  memory_limit = 256;
  output_limit = 64;
  stack_limit = 32;
}

start_darwin-report_example : (report (error "no child processes")).status_number ≢ 0
unfolding start_darwin
start_darwin-report_example =
    start_darwin-report small_limits exits_well (error "no child processes") refl

-- A file in memory that can be made and filled, but not sealed.
abbrev not_sealed : MemAnswers
not_sealed = record {
  create_error = none;
  new_file_fails = false;
  copied = 1 ∷ 2 ∷ [];
  copy_error = none;
  seal_error = some "no seal";
  seek_error = none;
}
