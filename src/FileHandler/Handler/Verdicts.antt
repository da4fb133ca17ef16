-- ===== src/FileHandler/Handler/Verdicts.antt =====
-- When a file access is allowed, soft banned, or ends the program.
use go_sandbox.Common.{true, false, Option, ◌≡◌, arith}
use go_sandbox.FilePaths.{FilePath}
use go_sandbox.FileHandler.FileSets.{is_readable_file, is_statable_file, is_soft_ban_file}
use go_sandbox.FileHandler.Handler.{
  TraceAction, trace_allow, trace_ban, trace_kill, Handler, check_read, check_write, check_stat,
}

module _ (eval_symlinks : FilePath → Option FilePath) (h : Handler) (fn : FilePath) where
  -- Why an access is refused.
  abbrev pub Refused : TraceAction → Type 0
  Refused trace_allow = Unit
  Refused trace_ban = is_soft_ban_file eval_symlinks h.file_set fn ≡ true
  Refused trace_kill = is_soft_ban_file eval_symlinks h.file_set fn ≡ false

  -- What may be written may be read, and what may be read may be statted. Each refusal, whatever
  -- was asked, is a ban for the soft banned files and kills for all others.
  pub check_verdicts :
      (check_write eval_symlinks h fn ≡ trace_allow → check_read eval_symlinks h fn ≡ trace_allow)
      × (check_read eval_symlinks h fn ≡ trace_allow → check_stat eval_symlinks h fn ≡ trace_allow)
      × Refused (check_write eval_symlinks h fn)
      × Refused (check_read eval_symlinks h fn)
      × Refused (check_stat eval_symlinks h fn)
  unfolding check_write check_read check_stat is_readable_file is_statable_file
  check_verdicts = ground arith
