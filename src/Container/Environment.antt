-- ===== src/Container/Environment.antt =====
-- Build and Destroy of container/environment_linux.go: the host's side of a container's life.
pub mod Deferred
pub mod Settled
use Prim.Native.Nat.{bit_and}
use mathlib.Core.Option.{map as option_map}
use go_sandbox.Common.{
  [], ◌∷◌, none, some, true, false, ℕ, List, Option, String, suc, if◌then◌else◌, Bool, zero, ◌==◌,
  nat_eq, codes,
}
use go_sandbox.ForkExec.Config.{CString, SyscallParams, IdMap, Runner, Credential, unshare_flags}
use go_sandbox.Ptracer.Events.{OrError, error, value}
use go_sandbox.Mount.{Build, Stat, Mount, build, built, build_error, build_panic}
use go_sandbox.Descriptors.{without, close_fd, deferred, open_fd, HostProcess}
use go_sandbox.FilePaths.{FilePath}
use go_sandbox.UnixSocket.{PairAnswers, new_socket_pair}
use go_sandbox.Mount.Builder.{with_tmpfs, new_default_builder}
use go_sandbox.Common.Int.{pos}

-- The pid of the container's init, and the host's end of its socket.
pub record Environment : Type 0 where
  pub pid : ℕ
  pub socket : ℕ

pub record EnvironmentBuilder : Type 0 where
  pub mounts : List SyscallParams
  pub root : FilePath
  pub stderr : Bool
  pub cred_generator : Option Credential
  pub clone_flags : ℕ

abbrev pub container_id_of_user : ℕ
container_id_of_user = 1000

-- the root of the container is the user of the host, and the container's user is the credential's
abbrev pub id_mapping : ℕ → ℕ → List IdMap
id_mapping effective id =
    record { container_id = 0; host_id = effective; size = 1 }
    ∷ record { container_id = container_id_of_user; host_id = id; size = 1 }
    ∷ []

-- What the calls of Build answer: the probes of the mounts, the work directory, the errors of
-- opening, the sockets, the dup, the start, the exchange of the configuration, and of wait4, which is
-- interrupted some times before it answers.
pub record BuildAnswers : Type 0 where
  pub stat : CString → Stat
  pub getwd : OrError FilePath
  pub dev_null_error : Option String
  pub exec_error : Option String
  pub sockets : PairAnswers
  pub pass_cred_error : Option String
  pub dup_error : Option String
  pub effective_uid : ℕ
  pub effective_gid : ℕ
  pub start : Runner → FilePath → OrError ℕ
  pub conf_error : Option String
  pub interruptions : ℕ
  pub wait_error : Option String

-- if err != nil { return nil, err }, with what has been done by then
abbrev pub unless_failed :
    {A : Type 0} → Option String → HostProcess → OrError A × HostProcess → OrError A × HostProcess
unless_failed (some e) h r = (error e, h)
unless_failed none h r = r

abbrev pub with_value :
    {A B : Type 0}
    → OrError A
    → HostProcess
    → (A → OrError B × HostProcess)
    → OrError B × HostProcess
with_value (error e) h f = (error e, h)
with_value (value x) h f = f x

abbrev pub pass_cred : Option String → OrError (ℕ × ℕ) × HostProcess → OrError (ℕ × ℕ) × HostProcess
pass_cred err (error e, h) = (error e, h)
pass_cred err (value (ins, outs), h) =
    unless_failed err (close_fd outs (close_fd ins h)) (value (ins, outs), h)

-- newPassCredSocketPair
unfoldable pub new_pass_cred_socket_pair :
    BuildAnswers → HostProcess → OrError (ℕ × ℕ) × HostProcess
new_pass_cred_socket_pair a h = pass_cred a.pass_cred_error (new_socket_pair a.sockets h)

abbrev pub reaped : Option String → ℕ → HostProcess → HostProcess
reaped none pid h = record h { children = without pid h.children }
reaped (some e) pid h = h

-- for err == unix.EINTR { _, err = unix.Wait4(…) }
abbrev pub wait_exit : ℕ → Option String → ℕ → HostProcess → Option String × HostProcess
wait_exit zero e pid h = (e, reaped e pid h)
wait_exit (suc n) e pid h = wait_exit n e pid h

-- The socket is closed, then the process is killed and waited for.
unfoldable pub destroy_environment :
    BuildAnswers → Environment → HostProcess → Option String × HostProcess
destroy_environment a c h = wait_exit a.interruptions a.wait_error c.pid (close_fd c.socket h)

module _ (a : BuildAnswers) (b : EnvironmentBuilder) where
  abbrev pub Built : Type 0
  Built = OrError Environment × HostProcess

  abbrev pub built_mounts : Build → OrError (List SyscallParams)
  built_mounts (built ps) = value ps
  built_mounts build_error = error "failed to build rootfs mount"
  built_mounts build_panic = error "panic: the nil FileInfo of a probe"

  abbrev pub default_mounts : List Mount
  default_mounts = with_tmpfs (codes "tmp") [] (with_tmpfs (codes "w") [] new_default_builder)

  unfoldable pub mounts_of : OrError (List SyscallParams)
  mounts_of = elim b.mounts [
    | [] ↦ built_mounts (build a.stat true default_mounts)
    | p ∷ ps ↦ value (p ∷ ps)
  ]

  unfoldable pub root_of : OrError FilePath
  root_of = elim b.root [ [] ↦ a.getwd | c ∷ cs ↦ value (c ∷ cs) ]

  unfoldable pub clone_flags_of : ℕ
  clone_flags_of = if b.clone_flags == 0 then unshare_flags else bit_and b.clone_flags unshare_flags

  -- the uses of the descriptors of /dev/null, of the executable and of the container's end
  unfoldable pub runner_of : List SyscallParams → ℕ → ℕ → ℕ → Runner
  unfolding clone_flags_of
  runner_of ms dev_null exec outf = record {
    exec_file = exec;
    rlimits = [];
    files = pos dev_null ∷ pos dev_null ∷ pos (if b.stderr then 2 else dev_null) ∷ pos outf ∷ [];
    seccomp = false;
    ptrace = false;
    no_new_privs = false;
    stop_before_seccomp = false;
    clone_flags = clone_flags_of;
    mounts = ms;
    drop_caps = false;
    uid_mappings = option_map (λ c. id_mapping a.effective_uid c.uid) b.cred_generator;
    gid_mappings = option_map (λ c. id_mapping a.effective_gid c.gid) b.cred_generator;
    gid_mappings_enable_setgroups = false;
    credential = none;
    unshare_cgroup_after_sync = false;
  }

  unfoldable pub at_conf : ℕ → ℕ → HostProcess → Built
  unfolding destroy_environment
  at_conf ins pid h =
      let c : Environment = record { pid = pid; socket = ins } in
      unless_failed a.conf_error (destroy_environment a c h).1 (value c, h)

  unfoldable pub at_start : ℕ → OrError ℕ → HostProcess → Built
  unfolding at_conf
  at_start ins (error e) h = (error e, close_fd ins h)
  at_start ins (value pid) h = at_conf ins pid (record h { children = pid ∷ h.children })

  unfoldable pub at_file : List SyscallParams → FilePath → ℕ → ℕ → ℕ → HostProcess → Built
  unfolding at_start runner_of
  at_file ms root dev_null exec ins h = unless_failed a.dup_error (close_fd ins h) (
      deferred h.next_fd
        (at_start ins (a.start (runner_of ms dev_null exec h.next_fd) root) (open_fd h)))

  abbrev pub at_socket :
      List SyscallParams → FilePath → ℕ → ℕ → OrError (ℕ × ℕ) × HostProcess → Built
  at_socket ms root dev_null exec (error e, h) = (error e, h)
  at_socket ms root dev_null exec (value (ins, outs), h) =
      deferred outs (at_file ms root dev_null exec ins h)

  unfoldable pub at_exec : List SyscallParams → FilePath → ℕ → HostProcess → Built
  unfolding at_file new_pass_cred_socket_pair
  at_exec ms root dev_null h = unless_failed a.exec_error h (
      deferred h.next_fd
        (at_socket ms root dev_null h.next_fd (new_pass_cred_socket_pair a (open_fd h))))

  unfoldable pub at_dev_null : List SyscallParams → FilePath → HostProcess → Built
  unfolding at_exec
  at_dev_null ms root h =
      unless_failed a.dev_null_error h (deferred h.next_fd (at_exec ms root h.next_fd (open_fd h)))

  unfoldable pub build_environment : HostProcess → Built
  unfolding mounts_of root_of at_dev_null
  build_environment h =
      with_value mounts_of h (λ ms. with_value root_of h (λ root. at_dev_null ms root h))
