-- ===== src/ForkExec/Prepared.antt =====
-- The parts of the child that come before its limits, and what each makes of the process.
use go_sandbox.ForkExec.Child.{
  Args, await_mappings, get_pid, set_credential, make_prefixes, mount_all, set_limits, check_mapped,
  mount_one, must_set_groups, errno_size, einval, enter_root, set_place, drop_all, set_session,
  with_some, old_root, make_private, mount_root, none_str, slash, tmpfs,
}
use go_sandbox.ForkExec.Attributes.{
  Takes, Process, bind-Takes, if-Takes, ask-Takes, done-Takes, same-Takes, call-Takes, when-Takes,
  keeps, jump-Takes, call_anyway-Takes, call_or_exists-Takes, cloned, some-Takes,
}
use go_sandbox.ForkExec.Calls.{
  Oracle, Child, when, getpid, dup3, mount, prlimit, read_sync, setgroups, setgid, close, mknodat,
  setuid, mkdirat, clear_cloexec, securebits, setsid, pivot_root, ioctl_ctty, umount_detach, capset,
  rmdirat, chdir, call_anyway, sethostname, setdomainname, call,
}
use go_sandbox.ForkExec.Fds.{
  pass_one, pass_two, move_pipe, move_exec_file, assign_fds, Slots, avoid_taken, is_below,
}
use go_sandbox.ForkExec.Config.{
  Runner, Credential, CString, SyscallParams, RLimit, unshare_user, has_flags, bind_ro, ms_remount,
  secure_drop, clone_newns, ms_rec, ms_private,
}
use go_sandbox.Common.{
  ℕ, List, Bool, if◌then◌else◌, ltb, ◌&&◌, suc, ◌∷◌, is_nil, ◌==◌, nat_eq, true, some, [], not,
  false, zero, ◌≡◌, ap, Option, subst, none, ◌+◌, refl,
}
use go_sandbox.Common.Int.{ℤ, negsuc, pos, unsigned}
use Prim.Native.Nat.{bit_or}

and-true : (b : Bool) → (b && true) ≡ b
and-true true = refl
and-true false = refl

kept-capable :
    (p : Process) → keeps p.secure ≡ true → record p { capable = p.capable && keeps p.secure } ≡ p
kept-capable p k = ap (λ b. record p { capable = b }) (rw k (and-true p.capable))

-- What is mounted and limited, the latest first; a read-only bind is mounted twice.
abbrev pub mount_targets : List SyscallParams → List CString → List CString
mount_targets [] acc = acc
mount_targets (m ∷ ms) acc =
    mount_targets ms
      (if has_flags m.flags bind_ro then m.target ∷ m.target ∷ acc else m.target ∷ acc)

abbrev pub root_target : Option CString → List CString → List CString
root_target none acc = acc
root_target (some root) acc = root ∷ acc

abbrev pub remounted_root : Option CString → List CString → List CString
remounted_root none acc = acc
remounted_root (some root) acc = slash ∷ acc

abbrev pub pivots : Option CString → Bool → Bool
pivots none before = before
pivots (some root) before = true

abbrev pub place_targets : Runner → Args → List CString → List CString
place_targets r a acc = remounted_root a.pivot_root_dir (
    mount_targets r.mounts (
      root_target a.pivot_root_dir
        (if has_flags r.clone_flags clone_newns then slash ∷ acc else acc)))

abbrev pub limits_set : List RLimit → List RLimit → List RLimit
limits_set [] acc = acc
limits_set (l ∷ ls) acc = limits_set ls (l ∷ acc)

mounted-Takes :
    (b : Bool) {m : Child (Unit {0})} (p : Process) (ts : List CString)
    → Takes m p (record p { mounted = ts })
    → Takes (when b m) p (record p { mounted = if b then ts else p.mounted })
unfolding when
mounted-Takes true p ts h = h
mounted-Takes false p ts h = done-Takes tt p

module _ (oracle : Oracle) where
  pub await_mappings-Takes :
      (r : Runner) (pipe : ℕ) (p : Process)
      → Takes
          (await_mappings oracle r pipe)
          p
          (if unshare_user r then record p { answers = suc p.answers } else p)
  unfolding await_mappings check_mapped
  await_mappings-Takes r pipe p = when-Takes (unshare_user r) (
      bind-Takes (ask-Takes oracle (read_sync pipe) p) (λ reply.
        if-Takes (not (reply.err == 0)) (jump-Takes reply.err _ _) (
          if-Takes (not (reply.r1 == errno_size)) (jump-Takes einval _ _)
            (if-Takes (not (reply.stored == 0)) (jump-Takes reply.stored _ _) (done-Takes tt _)))))

  pub get_pid-Takes : (p : Process) → Takes (get_pid oracle) p p
  unfolding get_pid
  get_pid-Takes p =
      bind-Takes (ask-Takes oracle getpid p)
        (λ reply. if-Takes (reply.err == 0) (done-Takes reply.r1 p) (jump-Takes reply.err p p))

  pub set_credential-Takes :
      (r : Runner) (cred : Credential) (p : Process)
      → Takes (set_credential oracle r cred) p (record p { capable = p.capable && keeps p.secure })
  unfolding set_credential
  set_credential-Takes r cred p =
      bind-Takes
        (same-Takes (must_set_groups r cred) p (call-Takes oracle (setgroups cred.groups) p))
        (λ _.
          bind-Takes (call-Takes oracle (setgid cred.gid) p)
            (λ _. call-Takes oracle (setuid cred.uid) p))

  pub pass_one-Takes :
      (i : ℕ) (fs : List ℤ) (s : Slots) (p : Process) → Takes (pass_one oracle i fs s) p p
  unfolding pass_one
  pass_one-Takes i [] s p = done-Takes ([], s) p
  pass_one-Takes i (negsuc n ∷ fs) s p =
      bind-Takes (pass_one-Takes (suc i) fs s p) (λ v. done-Takes (negsuc n ∷ v.0, v.1) p)
  pass_one-Takes i (pos f ∷ fs) s p =
      let n = (avoid_taken s).nextfd in
      if-Takes (is_below f i)
        (bind-Takes (call-Takes oracle (dup3 f n true) p) (λ _.
          bind-Takes (pass_one-Takes (suc i) fs (record s { nextfd = suc n }) p)
            (λ v. done-Takes (pos n ∷ v.0, v.1) p)))
        (bind-Takes (pass_one-Takes (suc i) fs s p) (λ v. done-Takes (pos f ∷ v.0, v.1) p))

  pub pass_two-Takes : (i : ℕ) (fs : List ℤ) (p : Process) → Takes (pass_two oracle i fs) p p
  unfolding pass_two
  pass_two-Takes i [] p = done-Takes tt p
  pass_two-Takes i (negsuc zero ∷ fs) p =
      bind-Takes (call_anyway-Takes oracle (close i) p) (λ _. pass_two-Takes (suc i) fs p)
  pass_two-Takes i (negsuc (suc n) ∷ fs) p =
      bind-Takes (call-Takes oracle (dup3 (unsigned 64 (negsuc (suc n))) i false) p)
        (λ _. pass_two-Takes (suc i) fs p)
  pass_two-Takes i (pos f ∷ fs) p =
      bind-Takes
        (if-Takes (f == i) (call-Takes oracle (clear_cloexec f) p)
          (call-Takes oracle (dup3 f i false) p))
        (λ _. pass_two-Takes (suc i) fs p)

  pub move_pipe-Takes : (s : Slots) (p : Process) → Takes (move_pipe oracle s) p p
  unfolding move_pipe
  move_pipe-Takes s p =
      if-Takes (ltb s.pipe s.nextfd)
        (bind-Takes (call-Takes oracle (dup3 s.pipe s.nextfd true) p) (λ _. done-Takes _ p))
        (done-Takes s p)

  pub move_exec_file-Takes : (s : Slots) (p : Process) → Takes (move_exec_file oracle s) p p
  unfolding move_exec_file
  move_exec_file-Takes s p =
      if-Takes (ltb 0 s.exec_file && ltb s.exec_file s.nextfd)
        (bind-Takes (call-Takes oracle (dup3 s.exec_file s.nextfd true) p) (λ _. done-Takes _ p))
        (done-Takes s p)

  pub assign_fds-Takes :
      (files : List ℤ) (pipe exec_file : ℕ) (p : Process)
      → Takes (assign_fds oracle files pipe exec_file) p p
  unfolding assign_fds
  assign_fds-Takes files pipe exec_file p = bind-Takes (move_pipe-Takes _ p) (λ s.
      bind-Takes (move_exec_file-Takes s p) (λ s'.
        bind-Takes (pass_one-Takes 0 files s' p)
          (λ v. bind-Takes (pass_two-Takes 0 v.0 p) (λ _. done-Takes v.1 p))))

  pub make_prefixes-Takes :
      (nod : Bool) (ps : List CString) (p : Process) → Takes (make_prefixes oracle nod ps) p p
  unfolding make_prefixes
  make_prefixes-Takes nod [] p = done-Takes tt p
  make_prefixes-Takes nod (c ∷ cs) p =
      if-Takes (is_nil cs && nod) (call_or_exists-Takes oracle (mknodat c) p)
        (bind-Takes (call_or_exists-Takes oracle (mkdirat c) p) (λ _. make_prefixes-Takes nod cs p))

  pub mount_all-Takes :
      (ms : List SyscallParams) (p : Process)
      → Takes (mount_all oracle ms) p (record p { mounted = mount_targets ms p.mounted })
  unfolding mount_all mount_one
  mount_all-Takes [] p = done-Takes tt p
  mount_all-Takes (m ∷ ms) p =
      bind-Takes
        (bind-Takes (make_prefixes-Takes m.make_nod m.prefixes p) (λ _.
          bind-Takes
            (call-Takes oracle (mount m.source m.target (some m.fs_type) m.flags m.data_ptr) p)
            (λ _. mounted-Takes (has_flags m.flags bind_ro) _ (m.target ∷ m.target ∷ p.mounted) (
              call-Takes oracle
                (mount [] m.target (some m.fs_type) (bit_or m.flags ms_remount) m.data_ptr) _))))
        (λ _. mount_all-Takes ms _)

  pub set_limits-Takes :
      (ls : List RLimit) (p : Process)
      → Takes (set_limits oracle ls) p (record p { limits = limits_set ls p.limits })
  unfolding set_limits
  set_limits-Takes [] p = done-Takes tt p
  set_limits-Takes (l ∷ ls) p =
      bind-Takes (call-Takes oracle (prlimit l) p) (λ _. set_limits-Takes ls _)

  mount_root-Takes :
      (o : Option CString) (p : Process)
      → Takes (with_some o (mount_root oracle)) p (record p { mounted = root_target o p.mounted })
  unfolding with_some mount_root
  mount_root-Takes none p = done-Takes tt p
  mount_root-Takes (some root) p =
      bind-Takes (call-Takes oracle (mount tmpfs root (some tmpfs) 0 (some [])) p)
        (λ _. call-Takes oracle (chdir root) _)

  enter_root-Takes :
      (o : Option CString) (p : Process)
      → Takes
          (with_some o (enter_root oracle))
          p
          (record p { mounted = remounted_root o p.mounted; pivoted = pivots o p.pivoted })
  unfolding with_some enter_root
  enter_root-Takes none p = done-Takes tt p
  enter_root-Takes (some root) p = bind-Takes (call-Takes oracle (mkdirat old_root) p) (λ _.
      bind-Takes (call-Takes oracle (pivot_root root old_root) p) (λ _.
        bind-Takes (call-Takes oracle (umount_detach old_root) _)
          (λ _. bind-Takes (call-Takes oracle (rmdirat old_root) _) (λ _. call-Takes oracle _ _))))

  -- the process once it stands in its place
  abbrev pub placed : Runner → Args → Process → Process
  placed r a p = record p {
    mounted = place_targets r a p.mounted;
    pivoted = pivots a.pivot_root_dir p.pivoted;
  }

  pub set_place-Takes :
      (r : Runner) (a : Args) (p : Process) → Takes (set_place oracle r a) p (placed r a p)
  unfolding set_place make_private
  set_place-Takes r a p =
      bind-Takes
        (mounted-Takes (has_flags r.clone_flags clone_newns) p (slash ∷ p.mounted)
          (call-Takes oracle (mount none_str slash none (ms_rec + ms_private) none) p))
        (λ _. bind-Takes (mount_root-Takes a.pivot_root_dir _) (λ _.
          bind-Takes (mount_all-Takes r.mounts _) (λ _.
            bind-Takes (enter_root-Takes a.pivot_root_dir _) (λ _.
              bind-Takes
                (some-Takes a.hostname (λ x. call_anyway oracle (sethostname x)) _
                  (λ x. call_anyway-Takes oracle (sethostname x) _))
                (λ _.
                  bind-Takes
                    (some-Takes a.domainname (λ d. call_anyway oracle (setdomainname d)) _
                      (λ d. call_anyway-Takes oracle (setdomainname d) _))
                    (λ _.
                      some-Takes a.workdir (λ d. call oracle (chdir d)) _
                        (λ d. call-Takes oracle (chdir d) _)))))))

  pub drop_all-Takes :
      (p : Process) → Takes (drop_all oracle) p (record p { secure = 0x2f; capable = false })
  unfolding drop_all
  drop_all-Takes p =
      bind-Takes (call-Takes oracle (securebits secure_drop) p) (λ _. call-Takes oracle capset _)

  pub set_session-Takes : (p : Process) → Takes (set_session oracle) p p
  unfolding set_session
  set_session-Takes p =
      bind-Takes (call-Takes oracle setsid p) (λ _. call_anyway-Takes oracle ioctl_ctty p)

  -- the process that the parts before the limits leave
  abbrev pub prepared : Runner → Process
  prepared r = record cloned { secure = 0x2c; answers = if unshare_user r then 1 else 0 }

  pub credential-Takes :
      (r : Runner) (c : Option Credential) (p : Process)
      → keeps p.secure ≡ true
      → Takes (with_some c (set_credential oracle r)) p p
  unfolding with_some
  credential-Takes r none p k = done-Takes tt p
  credential-Takes r (some cred) p k =
      subst (λ q. Takes (set_credential oracle r cred) p q) (kept-capable p k)
        (set_credential-Takes r cred p)
