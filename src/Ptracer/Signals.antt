-- ===== src/Ptracer/Signals.antt =====
-- The Linux signal numbers and ptrace events that the code names.
use go_sandbox.Common.{ℕ}

abbrev pub sigtrap : ℕ
sigtrap = 5

abbrev pub sigkill : ℕ
sigkill = 9

abbrev pub sigstop : ℕ
sigstop = 19

abbrev pub sigxcpu : ℕ
sigxcpu = 24

abbrev pub sigxfsz : ℕ
sigxfsz = 25

abbrev pub sigsys : ℕ
sigsys = 31

abbrev pub ptrace_event_exec : ℕ
ptrace_event_exec = 4

abbrev pub ptrace_event_seccomp : ℕ
ptrace_event_seccomp = 7
