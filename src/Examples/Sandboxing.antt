-- ===== src/Examples/Sandboxing.antt =====
-- A child on Darwin with a profile, three files and a limit, whose calls all succeed.
use go_sandbox.Common.{[], ◌∷◌, some, true, List}
use go_sandbox.Common.Int.{pos, negsuc}
use go_sandbox.Darwin.Child.{Call, Kernel, read_sync, write_sync, DarwinRunner, exec_in_child}

-- the reads and writes of the pipe have the size of an error number
abbrev willing : Kernel
willing log (read_sync fd) = record { r1 = 8; err = 0; stored = 0 }
willing log (write_sync fd e) = record { r1 = 8; err = 0; stored = 0 }
willing log _ = record { r1 = 0; err = 0; stored = 0 }

abbrev profiled : DarwinRunner
profiled = record {
  files = pos 5 ∷ negsuc 0 ∷ pos 1 ∷ [];
  rlimits = (record { res = 0; cur = 1; max = 2 }) ∷ [];
  work_dir = some (47 ∷ []);
  has_profile = true;
  parent_end = 3;
  child_end = 4;
}

abbrev profiled_calls : List Call
profiled_calls = (exec_in_child willing profiled []).1
