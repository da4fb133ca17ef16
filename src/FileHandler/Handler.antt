-- ===== src/FileHandler/Handler.antt =====
-- Handler of runner/ptrace/filehandler/handle.go, and TraceAction of ptracer/tracer.go.
pub mod Verdicts
use go_sandbox.Common.{Bool, true, false, not, String, Option, if◌then◌else◌}
use go_sandbox.FilePaths.{FilePath}
use go_sandbox.FileHandler.FileSets.{
  FileSets, is_writable_file, is_readable_file, is_statable_file, is_soft_ban_file,
}
use go_sandbox.FileHandler.SyscallCounter
use go_sandbox.FileHandler.SyscallCounter.{SyscallCounter, Checked}

pub data TraceAction : Type 0 where
  trace_allow trace_ban trace_kill : TraceAction

pub record Handler : Type 0 where
  pub file_set : FileSets
  pub syscall_counter : SyscallCounter

module _ (eval_symlinks : FilePath → Option FilePath) where
  unfoldable pub on_dgs_file_detect : Handler → FilePath → TraceAction
  on_dgs_file_detect h name =
      if is_soft_ban_file eval_symlinks h.file_set name then trace_ban else trace_kill

  unfoldable pub check_read : Handler → FilePath → TraceAction
  unfolding on_dgs_file_detect
  check_read h fn =
      if not (is_readable_file eval_symlinks h.file_set fn)
      then on_dgs_file_detect h fn
      else trace_allow

  unfoldable pub check_write : Handler → FilePath → TraceAction
  unfolding on_dgs_file_detect
  check_write h fn =
      if not (is_writable_file eval_symlinks h.file_set fn)
      then on_dgs_file_detect h fn
      else trace_allow

  unfoldable pub check_stat : Handler → FilePath → TraceAction
  unfolding on_dgs_file_detect
  check_stat h fn =
      if not (is_statable_file eval_symlinks h.file_set fn)
      then on_dgs_file_detect h fn
      else trace_allow

abbrev pub counted : Checked → TraceAction
counted c = if c.inside then (if c.allow then trace_allow else trace_kill) else trace_ban

-- The counter of the call goes down; the action comes back beside the handler.
unfoldable pub check_syscall : Handler → String → Handler × TraceAction
check_syscall h syscall_name =
    let c = SyscallCounter.check h.syscall_counter syscall_name in
    (record h { syscall_counter = c.counter }, counted c)
