-- ===== src/Ptracer/Regs.antt =====
-- Context of ptracer/context_linux_amd64.go and context_linux_arm64.go: the registers of a process
-- that is stopped at a system call. Registers are 64-bit words.
use go_sandbox.Common.{ℕ, ◌-◌, ◌^◌}
use go_sandbox.Common.Int.{ℤ, unsigned}

pub record Amd64 : Type 0 where
  pub orig_rax : ℕ
  pub rax : ℕ
  pub rdi : ℕ
  pub rsi : ℕ
  pub rdx : ℕ
  pub r10 : ℕ
  pub r8 : ℕ
  pub r9 : ℕ

abbrev pub syscall_no : Amd64 → ℕ
syscall_no c = c.orig_rax

abbrev pub arg0 : Amd64 → ℕ
arg0 c = c.rdi

abbrev pub arg1 : Amd64 → ℕ
arg1 c = c.rsi

abbrev pub arg2 : Amd64 → ℕ
arg2 c = c.rdx

abbrev pub arg3 : Amd64 → ℕ
arg3 c = c.r10

abbrev pub arg4 : Amd64 → ℕ
arg4 c = c.r8

abbrev pub arg5 : Amd64 → ℕ
arg5 c = c.r9

abbrev pub set_return_value : ℤ → Amd64 → Amd64
set_return_value retval c = record c { rax = unsigned 64 retval }

-- skipSyscall before it writes the registers back: ^uint64(0)
abbrev pub skip_syscall : Amd64 → Amd64
skip_syscall c = record c { orig_rax = 2 ^ 64 - 1 }
