-- ===== src/Launch.antt =====
-- The processes that the three runners ask pkg/forkexec for: Run of runner/ptrace/run_linux.go, trace of
-- runner/unshare/run_linux.go, and handleExecve of container/container_exec_linux.go.
pub mod Confined
use go_sandbox.Common.{[], ◌∷◌, none, some, true, false, ℕ, Bool, List, Option, map}
use go_sandbox.ForkExec.Config.{Runner, RLimit, Credential, SyscallParams}
use go_sandbox.Common.Int.{ℤ, pos}

-- What the caller of a runner gives.
pub record Request : Type 0 where
  pub exec_file : ℕ
  pub rlimits : List RLimit
  pub files : List ℤ
  pub mounts : List SyscallParams

-- CLONE_NEWNS | NEWPID | NEWUSER | NEWUTS | NEWCGROUP
abbrev pub unshare_runner_flags : ℕ
unshare_runner_flags = 0x36020000

-- A runner with the fields that none of the three leaves out.
abbrev base_runner : Request → Runner
base_runner q = record {
  exec_file = q.exec_file;
  rlimits = q.rlimits;
  files = q.files;
  seccomp = false;
  ptrace = false;
  no_new_privs = false;
  stop_before_seccomp = false;
  clone_flags = 0;
  mounts = [];
  drop_caps = false;
  uid_mappings = none;
  gid_mappings = none;
  gid_mappings_enable_setgroups = false;
  credential = none;
  unshare_cgroup_after_sync = true;
}

unfoldable pub ptrace_child : Request → Runner
ptrace_child q = record (base_runner q) { seccomp = true; ptrace = true }

unfoldable pub unshare_child : Request → Runner
unshare_child q = record (base_runner q) {
  seccomp = true;
  no_new_privs = true;
  clone_flags = unshare_runner_flags;
  mounts = q.mounts;
  drop_caps = true;
}

-- the credential of a container that was configured with one
abbrev pub container_credential : Bool → Option Credential
container_credential true =
    some (record { uid = 1000; gid = 1000; groups = []; no_set_groups = true })
container_credential false = none

unfoldable pub container_child : Bool → Request → Runner
container_child cred q = record (base_runner q) {
  no_new_privs = true;
  drop_caps = true;
  credential = container_credential cred;
}

-- With FdExec the first file is the executable, and there must be one: files and executable
unfoldable pub exec_files : Bool → List ℕ → Option (ℕ × List ℤ)
exec_files false fds = some (0, map pos fds)
exec_files true [] = none
exec_files true (fd ∷ fds) = some (fd, map pos fds)

unfoldable pub handle_execve_runner : Bool → Bool → List RLimit → List ℕ → Option Runner
unfolding exec_files container_child
handle_execve_runner cred fd_exec rlimits fds = elim (exec_files fd_exec fds) [
  | none ↦ none
  | some (exec, files) ↦ some (
      container_child cred
        (record { exec_file = exec; rlimits = rlimits; files = files; mounts = [] }))
]

pub data Kind : Type 0 where
  by_ptrace by_unshare : Kind
  -- with a credential or without
  by_container : Bool → Kind

unfoldable pub launched : Kind → Request → Runner
unfolding ptrace_child unshare_child container_child
launched by_ptrace q = ptrace_child q
launched by_unshare q = unshare_child q
launched (by_container cred) q = container_child cred q
