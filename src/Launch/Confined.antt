-- ===== src/Launch/Confined.antt =====
-- How the program of each runner is confined when its execve succeeds.
use go_sandbox.Common.{◌∷◌, Bool, ◌&&◌, ◌==◌, nat_eq, [], true, false, ◌≡◌, ℕ, List}
use go_sandbox.Launch.{Kind, Request, by_container, by_ptrace, by_unshare, launched}
use go_sandbox.ForkExec.Attributes.{Process, program_capable}
use go_sandbox.ForkExec.Child.{Args, slash}
use Prim.Native.Nat.{bit_and}
use go_sandbox.ForkExec.Prepared.{limits_set, pivots, mount_targets, root_target, remounted_root}

-- CLONE_NEWNS, NEWPID, NEWUSER, NEWUTS and NEWCGROUP, as clone(2) numbers them
abbrev pub own_namespaces : List ℕ
own_namespaces = 0x20000 ∷ 0x20000000 ∷ 0x10000000 ∷ 0x4000000 ∷ 0x2000000 ∷ []

abbrev pub has_all : List ℕ → ℕ → Bool
has_all [] flags = true
has_all (f ∷ fs) flags = (bit_and flags f == f) && has_all fs flags

-- What differs: a filter and a tracer; a filter, no capabilities, five namespaces and the mounts; or
-- no capabilities.
abbrev pub Confinement : Kind → Request → Args → Process → Type 0
Confinement by_ptrace q a p = (p.filters ≡ 1) × (p.traced ≡ true) × (p.stops ≡ 1)
Confinement by_unshare q a p =
    (p.filters ≡ 1)
    × (program_capable p ≡ false)
    × (p.answers ≡ 2)
    × (p.mounted
        ≡ remounted_root a.pivot_root_dir
            (mount_targets q.mounts (root_target a.pivot_root_dir (slash ∷ []))))
    × (has_all own_namespaces (launched by_unshare q).clone_flags ≡ true)
Confinement (by_container cred) q a p =
    (p.filters ≡ 0) × (program_capable p ≡ false) × (p.answers ≡ 1)

-- What holds in each.
abbrev pub Confined : Kind → Request → Args → Process → Type 0
Confined k q a p =
    (p.no_new_privs ≡ true)
    × (p.own_cgroup ≡ true)
    × (p.reports ≡ 1)
    × (p.limits ≡ limits_set q.rlimits [])
    × (p.pivoted ≡ pivots a.pivot_root_dir false)
    × Confinement k q a p
