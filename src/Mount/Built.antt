-- ===== src/Mount/Built.antt =====
-- Which system calls a builder makes of its mounts.
use go_sandbox.Common.{
  [], ◌∷◌, none, some, Bool, List, true, if◌then◌else◌, false, ◌≡◌, ◌&&◌, Option, sym, arith, inl,
  ◌⊎◌, Bool-cases, inr, refl, ◌∙◌, ap,
}
use go_sandbox.Mount.{
  Mount, Stat, build, params_of, built, not_exist, is_file, Probe, is_bind_mount_file_or_not_exists,
  to_syscall, Build, missing, push, panics, with_nod, build_error, probed, build_panic,
}
use go_sandbox.ForkExec.Config.{CString, SyscallParams, has_flags, ms_bind}

abbrev pub is_gone : Stat → Bool
is_gone not_exist = true
is_gone _ = false

abbrev pub is_regular : Stat → Bool
is_regular is_file = true
is_regular _ = false

-- a bind mount of a source that is missing
abbrev pub is_missing : (CString → Stat) → Mount → Bool
is_missing stat m = has_flags m.flags ms_bind && is_gone (stat m.source)

-- a bind mount of something that is not a directory needs a file as its mount point
abbrev pub is_node : (CString → Stat) → Mount → Bool
is_node stat m = has_flags m.flags ms_bind && is_regular (stat m.source)

abbrev pub present_mounts : (CString → Stat) → List Mount → List Mount
present_mounts stat [] = []
present_mounts stat (m ∷ ms) =
    if is_missing stat m then present_mounts stat ms else m ∷ present_mounts stat ms

abbrev pub params_list : (CString → Stat) → List Mount → List SyscallParams
params_list stat [] = []
params_list stat (m ∷ ms) = params_of m (is_node stat m) ∷ params_list stat ms

built-inj : {a b : List SyscallParams} → built a ≡ built b → a ≡ b
built-inj e = cc

abbrev Probed : (CString → Stat) → Mount → Probe → Type 0
Probed stat m p =
    ((p ≡ missing) × (is_missing stat m ≡ true))
    ⊎ ((p ≡ panics) ⊎ ((p ≡ probed (is_node stat m)) × (is_missing stat m ≡ false)))

probe-cases :
    (stat : CString → Stat) (m : Mount) → Probed stat m (is_bind_mount_file_or_not_exists stat m)
unfolding is_bind_mount_file_or_not_exists
probe-cases stat m = ground arith

to_syscall-cases : (m : Mount) → (to_syscall m ≡ none) ⊎ (to_syscall m ≡ some (params_of m false))
unfolding to_syscall
to_syscall-cases m = ground arith

push-built :
    (p : SyscallParams) (b : Build) (ps : List SyscallParams)
    → push p b ≡ built ps
    → (qs : List SyscallParams) × (b ≡ built qs) × (ps ≡ p ∷ qs)
push-built p (built qs) ps e = (qs, refl, built-inj (sym e))
push-built p build_error ps e = cc
push-built p build_panic ps e = cc

with_nod-built :
    (nod : Bool) (o : Option SyscallParams) (m : Mount) (b : Build) (ps : List SyscallParams)
    → (o ≡ none) ⊎ (o ≡ some (params_of m false))
    → with_nod nod o b ≡ built ps
    → (qs : List SyscallParams) × (b ≡ built qs) × (ps ≡ params_of m nod ∷ qs)
with_nod-built nod o m b ps (inl h) e = absurd (ground arith)
with_nod-built nod o m b ps (inr h) e = push-built (params_of m nod) b ps (rw h at e)

-- A build that succeeds makes, in the order of the mounts, the parameters of each mount whose
-- source is not missing; where missing sources are not skipped, none is missing. Exactly the bind
-- mounts of files get a file as their mount point.
pub build-present :
    (stat : CString → Stat) (skip : Bool) (ms : List Mount) (ps : List SyscallParams)
    → build stat skip ms ≡ built ps
    → (ps ≡ params_list stat (present_mounts stat ms))
      × (skip ≡ false → present_mounts stat ms ≡ ms)
unfolding build
build-present stat skip [] ps e = (built-inj (sym e), λ h. refl)
build-present stat skip (m ∷ ms) ps e = elim (probe-cases stat m) [
  | inl (p, g) ↦ elim (Bool-cases skip) [
    | inr b ↦ absurd (ground arith)
    | inl b ↦
        let ih = build-present stat skip ms ps (rw (p, b, build) at e) in
        rw g (ih.0, λ h. absurd (ground arith))
  ]
  | inr (inl p) ↦ absurd (ground arith)
  | inr (inr (p, g)) ↦
      let (qs, r, q) =
        with_nod-built (is_node stat m) (to_syscall m) m (build stat skip ms) ps
          (to_syscall-cases m) (rw (p, build) at e) in
      let ih = build-present stat skip ms qs r in
      rw g (q ∙ ap (λ l. params_of m (is_node stat m) ∷ l) ih.0, λ h. ap (λ l. m ∷ l) (ih.1 h))
]
