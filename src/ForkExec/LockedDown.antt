-- ===== src/ForkExec/LockedDown.antt =====
-- What a process has given up, and whom it has told, when its execve is made.
use go_sandbox.ForkExec.Child.{Args, wants_drop}
use go_sandbox.ForkExec.Attributes.{Process}
use go_sandbox.ForkExec.Calls.{Oracle, no_new_privs}
use go_sandbox.Common.{Bool, ℕ, List, if◌then◌else◌, suc, not, true, [], ◌||◌, ◌&&◌, false, nat_eq}
use go_sandbox.ForkExec.Config.{Runner, CString, RLimit, unshare_user}
use go_sandbox.ForkExec.Prepared.{prepared, placed, place_targets, pivots, limits_set}

module _ (oracle : Oracle) where
  abbrev synced : Bool → Bool → Process → Process
  synced cgroup drops p =
      let told = record p { reports = suc p.reports; answers = suc p.answers } in
      let moved = record told { own_cgroup = p.capable } in
      if cgroup
      then (if drops then record moved { secure = 0x2f; capable = false } else moved)
      else told

  -- the states between the parts of `lock_down`
  module _ (privs seccomp drops cgroup ptrace stop : Bool) where
    abbrev step1 : Process → Process
    step1 p = if privs || seccomp then record p { no_new_privs = true } else p

    abbrev step2 : Process → Process
    step2 p = if drops && not cgroup then record p { secure = 0x2f; capable = false } else p

    abbrev step3 : Process → Process
    step3 p = if ptrace && seccomp then record (synced cgroup drops p) { traced = true } else p

    abbrev step4 : Process → Process
    step4 p = if stop || (seccomp && ptrace) then record p { stops = suc p.stops } else p

    abbrev filtered : Process → Process
    filtered p = record p { filters = if p.no_new_privs then suc p.filters else p.filters }

    abbrev step5 : Process → Process
    step5 p = if seccomp && (not cgroup || ptrace) then filtered p else p

    abbrev step6 : Process → Process
    step6 p =
        if not ptrace || not seccomp
        then (if cgroup && seccomp then filtered (synced cgroup drops p) else synced cgroup drops p)
        else p

    abbrev step7 : Process → Process
    step7 p = if ptrace && not seccomp then record p { traced = true } else p

    -- the process that the runner's fields ask for
    abbrev pub asked_for : ℕ → List CString → Bool → List RLimit → Process
    asked_for mapped mounted pivoted limits = record {
      no_new_privs = privs || seccomp;
      secure = if drops then 0x2f else 0x2c;
      capable = not drops;
      filters = if seccomp then 1 else 0;
      traced = ptrace;
      stops = if stop || (seccomp && ptrace) then 1 else 0;
      own_cgroup = cgroup;
      reports = 1;
      answers = suc mapped;
      mounted = mounted;
      pivoted = pivoted;
      limits = limits;
    }

  -- the process that the program's limits are set for
  abbrev settled : Runner → Args → Process
  settled r a = record (placed oracle r a (prepared oracle r)) { limits = limits_set r.rlimits [] }

  -- the process that the fields of the runner and the arguments ask for
  abbrev pub asked_by : Runner → Args → Process
  asked_by r a =
      asked_for r.no_new_privs r.seccomp (wants_drop r) r.unshare_cgroup_after_sync r.ptrace
        r.stop_before_seccomp (if unshare_user r then 1 else 0) (place_targets r a [])
        (pivots a.pivot_root_dir false) (limits_set r.rlimits [])
