-- ===== src/PtraceRunner.antt =====
-- runner/ptrace/handle_linux.go: which check a traced system call gets, and what is done with the
-- answer. The name table of the libseccomp package, the working directory of the process and the
-- texts in its memory are parameters; `none` of `get_string` is a panic in the tracer.
pub mod Handle
use Prim.Native.Nat.{bit_and}
use go_sandbox.Common.{
  ℕ, String, Bool, true, false, ◌&&◌, ◌||◌, Option, none, some, if◌then◌else◌, ◌==◌, nat_eq,
  string_eq,
}
use go_sandbox.Common.Int.{ℤ, negsuc}
use go_sandbox.FilePaths.{FilePath, is_abs, join, clean}
use go_sandbox.FileHandler.Handler.{
  TraceAction, trace_allow, trace_ban, trace_kill, Handler, check_read, check_write, check_stat,
  check_syscall,
}
use go_sandbox.Ptracer.Regs.{Amd64, syscall_no, arg0, arg1, arg2, set_return_value}

abbrev pub o_accmode : ℕ
o_accmode = 3

abbrev pub o_rdonly : ℕ
o_rdonly = 0

abbrev pub o_creat : ℕ
o_creat = 0x40

abbrev pub o_excl : ℕ
o_excl = 0x80

abbrev pub o_trunc : ℕ
o_trunc = 0x200

-- -EACCES
abbrev pub ban_ret : ℤ
ban_ret = negsuc 12

unfoldable pub is_read_only : ℕ → Bool
is_read_only flags =
    (bit_and flags o_accmode == o_rdonly)
    && (bit_and flags o_creat == 0)
    && (bit_and flags o_excl == 0)
    && (bit_and flags o_trunc == 0)

-- The check that a system call gets, with the address of the path and the flags of an open.
pub data Check : Type 0 where
  open_file : ℕ → ℕ → Check
  read_path write_path stat_path : ℕ → Check
  by_name : Check

-- the switch of `Handle`
unfoldable pub check_of : String → Amd64 → Check
check_of name ctx =
    if name == "open"
    then open_file (arg0 ctx) (arg1 ctx)
    else if name == "openat"
    then open_file (arg1 ctx) (arg2 ctx)
    else if name == "readlink"
    then read_path (arg0 ctx)
    else if name == "readlinkat"
    then read_path (arg1 ctx)
    else if name == "unlink"
    then write_path (arg0 ctx)
    else if name == "unlinkat"
    then write_path (arg1 ctx)
    else if name == "access"
    then stat_path (arg0 ctx)
    else if (name == "faccessat") || (name == "newfstatat")
    then stat_path (arg1 ctx)
    else if (name == "stat") || (name == "stat64")
    then stat_path (arg0 ctx)
    else if (name == "lstat") || (name == "lstat64")
    then stat_path (arg0 ctx)
    else if name == "execve"
    then read_path (arg0 ctx)
    else if name == "execveat"
    then read_path (arg1 ctx)
    else if name == "chmod"
    then write_path (arg0 ctx)
    else if name == "rename"
    then write_path (arg0 ctx)
    else by_name

-- absPath, given the working directory that /proc shows, or the empty path
unfoldable pub abs_path : FilePath → FilePath → FilePath
abs_path cwd p = if is_abs p then clean p else join cwd p

-- What `Handle` leaves: the handler, the registers and the action.
pub record Handled : Type 0 where
  pub handler : Handler
  pub ctx : Amd64
  pub action : TraceAction

-- the second switch of `Handle`, with softBanSyscall
unfoldable pub conclude : Handler → Amd64 → TraceAction → Handled
conclude h ctx trace_allow = record { handler = h; ctx = ctx; action = trace_allow }
conclude h ctx trace_ban = record {
  handler = h;
  ctx = set_return_value ban_ret ctx;
  action = trace_ban;
}
conclude h ctx trace_kill = record { handler = h; ctx = ctx; action = trace_kill }

module _ (eval_symlinks : FilePath → Option FilePath) (cwd : FilePath)
    (get_string : ℕ → Option FilePath) where
  unfoldable pub check_open : Handler → FilePath → ℕ → TraceAction
  check_open h fn flags =
      if is_read_only flags then check_read eval_symlinks h fn else check_write eval_symlinks h fn

  abbrev pub with_path : ℕ → (FilePath → Handled) → Option Handled
  with_path addr k = elim (get_string addr) [ none ↦ none | some p ↦ some (k (abs_path cwd p)) ]

  unfoldable pub run_check : Handler → Amd64 → String → Check → Option Handled
  unfolding check_open conclude
  run_check h ctx name (open_file addr flags) =
      with_path addr (λ fn. conclude h ctx (check_open h fn flags))
  run_check h ctx name (read_path addr) =
      with_path addr (λ fn. conclude h ctx (check_read eval_symlinks h fn))
  run_check h ctx name (write_path addr) =
      with_path addr (λ fn. conclude h ctx (check_write eval_symlinks h fn))
  run_check h ctx name (stat_path addr) =
      with_path addr (λ fn. conclude h ctx (check_stat eval_symlinks h fn))
  run_check h ctx name by_name =
      let (h', action) = check_syscall h name in some (conclude h' ctx action)

  -- an unknown number kills
  abbrev pub handle_named : Handler → Amd64 → Option String → Option Handled
  handle_named h ctx none = some (record { handler = h; ctx = ctx; action = trace_kill })
  handle_named h ctx (some name) = run_check h ctx name (check_of name ctx)

  unfoldable pub handle : (ℕ → Option String) → Handler → Amd64 → Option Handled
  unfolding run_check check_of
  handle to_syscall_name h ctx = handle_named h ctx (to_syscall_name (syscall_no ctx))
