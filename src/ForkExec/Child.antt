-- ===== src/ForkExec/Child.antt =====
-- The child of forkAndExecInChild of pkg/forkexec/fork_child_linux.go, from the clone to the execve,
-- one function for each of its commented parts.
use Prim.Native.Nat.{bit_or}
use go_sandbox.ForkExec.Config.{
  Runner, SyscallParams, CString, Credential, RLimit, unshare_user, has_flags, clone_newns, ms_rec,
  bind_ro, secure_drop, secure_keep, ms_remount, ms_private, ms_bind, ms_rdonly, ms_noatime,
  ms_nosuid,
}
use go_sandbox.Common.{
  ℕ, Option, Bool, List, some, ◌∷◌, [], not, if◌then◌else◌, ltb, suc, none, ◌==◌, ◌||◌, nat_eq,
  zero, ◌&&◌, ◌+◌, is_some,
}
use go_sandbox.ForkExec.Calls.{
  Oracle, Child, Reply, Call, done, when, jump, ◌>>=◌, ◌>>◌, ask, call, call_anyway, call_nonempty,
  read_sync, getpid, setgroups, setsid, mount, mkdirat, prlimit, sethostname, securebits,
  write_sync, no_new_privs, execveat_fd, close, setgid, ioctl_ctty, chdir, call_or_exists,
  pivot_root, setdomainname, unshare_cgroup, traceme, execveat_path, setuid, mknodat, umount_detach,
  capset, kill_stop, rmdirat, load_seccomp,
}
use go_sandbox.ForkExec.Fds.{Slots, assign_fds}
use go_sandbox.Common.{is_nil, is_some}

-- The parameters beside the runner: p[0] and p[1], and the strings, where nil is `none`.
pub record Args : Type 0 where
  pub parent_end : ℕ
  pub pipe : ℕ
  pub workdir : Option CString
  pub hostname : Option CString
  pub domainname : Option CString
  pub pivot_root_dir : Option CString

abbrev pub none_str : CString
none_str = 110 ∷ 111 ∷ 110 ∷ 101 ∷ []

abbrev pub slash : CString
slash = 47 ∷ []

abbrev pub tmpfs : CString
tmpfs = 116 ∷ 109 ∷ 112 ∷ 102 ∷ 115 ∷ []

abbrev pub old_root : CString
old_root = 111 ∷ 108 ∷ 100 ∷ 95 ∷ 114 ∷ 111 ∷ 111 ∷ 116 ∷ []

abbrev pub einval : ℕ
einval = 22

abbrev pub etxtbsy : ℕ
etxtbsy = 26

-- unsafe.Sizeof(err2)
abbrev pub errno_size : ℕ
errno_size = 8

-- if x != nil { f(x) }
unfoldable pub with_some : {A : Type 0} → Option A → (A → Child (Unit {0})) → Child (Unit {0})
with_some none f = done tt
with_some (some a) f = f a

unfoldable pub wants_drop : Runner → Bool
wants_drop r = is_some r.credential || r.drop_caps

unfoldable pub must_set_groups : Runner → Credential → Bool
must_set_groups r cred =
    not ((is_some r.gid_mappings && not r.gid_mappings_enable_setgroups) && is_nil cred.groups)
    && not cred.no_set_groups

unfoldable pub exec_call : ℕ → Call
exec_call exec_file = if ltb 0 exec_file then execveat_fd exec_file else execveat_path

module _ (oracle : Oracle) where
  -- the error that the parent sends once it has written the mappings
  unfoldable pub check_mapped : Reply → Child (Unit {0})
  check_mapped reply =
      if not (reply.err == 0)
      then jump reply.err
      else (if not (reply.r1 == errno_size)
          then jump einval
          else (if not (reply.stored == 0) then jump reply.stored else done tt))

  unfoldable pub await_mappings : Runner → ℕ → Child (Unit {0})
  await_mappings r pipe =
      when (unshare_user r) (do reply ← ask oracle (read_sync pipe); check_mapped reply)

  unfoldable pub get_pid : Child ℕ
  get_pid = do reply ← ask oracle getpid; if reply.err == 0 then done reply.r1 else jump reply.err

  unfoldable pub set_credential : Runner → Credential → Child (Unit {0})
  set_credential r cred = do
    when (must_set_groups r cred) (call oracle (setgroups cred.groups))
    call oracle (setgid cred.gid)
    call oracle (setuid cred.uid)

  unfoldable pub set_session : Child (Unit {0})
  set_session = do call oracle setsid; call_anyway oracle ioctl_ctty

  unfoldable pub make_private : Runner → Child (Unit {0})
  make_private r =
      when (has_flags r.clone_flags clone_newns)
        (call oracle (mount none_str slash none (ms_rec + ms_private) none))

  unfoldable pub mount_root : CString → Child (Unit {0})
  mount_root root = do
    call oracle (mount tmpfs root (some tmpfs) 0 (some []))
    call oracle (chdir root)

  unfoldable pub make_prefixes : Bool → List CString → Child (Unit {0})
  make_prefixes nod [] = done tt
  make_prefixes nod (p ∷ ps) =
      let rest = make_prefixes nod ps in
      if is_nil ps && nod
      then call_or_exists oracle (mknodat p)
      else (do call_or_exists oracle (mkdirat p); rest)

  -- bind mount is not respect ro flag so that read-only bind mount needs remount
  unfoldable pub mount_one : SyscallParams → Child (Unit {0})
  mount_one m = do
    make_prefixes m.make_nod m.prefixes
    call oracle (mount m.source m.target (some m.fs_type) m.flags m.data_ptr)
    when (has_flags m.flags bind_ro)
        (call oracle (mount [] m.target (some m.fs_type) (bit_or m.flags ms_remount) m.data_ptr))

  unfoldable pub mount_all : List SyscallParams → Child (Unit {0})
  mount_all [] = done tt
  mount_all (m ∷ ms) = do mount_one m; mount_all ms

  unfoldable pub enter_root : CString → Child (Unit {0})
  enter_root root = do
    call oracle (mkdirat old_root)
    call oracle (pivot_root root old_root)
    call oracle (umount_detach old_root)
    call oracle (rmdirat old_root)
    call oracle (
        mount tmpfs slash (some tmpfs) (ms_bind + ms_remount + ms_rdonly + ms_noatime + ms_nosuid)
          (some []))

  unfoldable pub set_limits : List RLimit → Child (Unit {0})
  set_limits [] = done tt
  set_limits (l ∷ ls) = do call oracle (prlimit l); set_limits ls

  -- everything of the file system and the names
  unfoldable pub set_place : Runner → Args → Child (Unit {0})
  set_place r a = do
    make_private r
    with_some a.pivot_root_dir mount_root
    mount_all r.mounts
    with_some a.pivot_root_dir enter_root
    with_some a.hostname (λ h. call_anyway oracle (sethostname h))
    with_some a.domainname (λ d. call_anyway oracle (setdomainname d))
    with_some a.workdir (λ d. call oracle (chdir d))

  unfoldable pub drop_all : Child (Unit {0})
  drop_all = do call oracle (securebits secure_drop); call oracle capset

  -- tell the parent, wait for its answer, and unshare what had to wait for it
  unfoldable pub sync_parent : Runner → ℕ → Child (Unit {0})
  sync_parent r pipe = do
    call_nonempty oracle (write_sync pipe 0)
    call_nonempty oracle (read_sync pipe)
    when r.unshare_cgroup_after_sync (do call oracle unshare_cgroup; when (wants_drop r) drop_all)

  -- from `No new privs` to the execve
  unfoldable pub lock_down : Runner → ℕ → ℕ → Child (Unit {0})
  lock_down r pid pipe = do
    when (r.no_new_privs || r.seccomp) (call oracle no_new_privs)
    when (wants_drop r && not r.unshare_cgroup_after_sync) drop_all
    when (r.ptrace && r.seccomp) (do sync_parent r pipe; call oracle traceme)
    when (r.stop_before_seccomp || (r.seccomp && r.ptrace)) (call oracle (kill_stop pid))
    when (r.seccomp && (not r.unshare_cgroup_after_sync || r.ptrace)) (call oracle load_seccomp)
    when (not r.ptrace || not r.seccomp) (do
      sync_parent r pipe
      when (r.unshare_cgroup_after_sync && r.seccomp) (call oracle load_seccomp))
    when (r.ptrace && not r.seccomp) (call oracle traceme)

  -- The execve is tried again while the kernel answers ETXTBSY; an execve without an error does not
  -- return.
  unfoldable pub exec_retry : ℕ → Call → Child (Unit {0})
  exec_retry zero c = jump etxtbsy
  exec_retry (suc fuel) c = do
    reply ← ask oracle c
    let rest = exec_retry fuel c in
        if reply.err == etxtbsy then rest else (if reply.err == 0 then done tt else jump reply.err)

  -- the part before the limits of the program
  unfoldable pub set_up : Runner → Args → Child (ℕ × Slots)
  set_up r a = do
    call oracle (close a.parent_end)
    await_mappings r a.pipe
    pid ← get_pid
    call oracle (securebits secure_keep)
    with_some r.credential (set_credential r)
    s ← assign_fds oracle r.files a.pipe r.exec_file
    set_session
    set_place r a
    set_limits r.rlimits
    done (pid, s)

  unfoldable pub fork_and_exec_in_child : ℕ → Runner → Args → Child (Unit {0})
  fork_and_exec_in_child fuel r a = do
    (pid, s) ← set_up r a
    lock_down r pid s.pipe
    exec_retry fuel (exec_call s.exec_file)
