-- ===== src/Mount.antt =====
-- pkg/mount: mount points, and the parameters of the system calls that make them (mount.go,
-- mount_linux.go, builder.go, builder_linux.go).
pub mod Prefixes
pub mod Built
pub mod Builder
use go_sandbox.ForkExec.Config.{SyscallParams, CString, has_flags, ms_bind}
use go_sandbox.Common.{
  none, some, [], ◌∷◌, ℕ, List, Bool, Option, if◌then◌else◌, false, ◌++◌, ◌||◌, ◌==◌, nat_eq, true,
}

pub record Mount : Type 0 where
  pub source : CString
  pub target : CString
  pub fs_type : CString
  pub data_text : CString
  pub flags : ℕ

-- path[:i] at each '/' but the first byte, and path
unfoldable pub slash_prefixes : CString → CString → List CString
slash_prefixes before [] = []
slash_prefixes before (c ∷ cs) =
    let rest = slash_prefixes (before ++ c ∷ []) cs in if c == 47 then before ∷ rest else rest

unfoldable pub path_prefix : CString → List CString
unfolding slash_prefixes
path_prefix [] = [] ∷ []
path_prefix (c ∷ cs) = slash_prefixes (c ∷ []) cs ++ (c ∷ cs) ∷ []

-- syscall.BytePtrFromString refuses a string with a zero byte
abbrev pub has_nul : CString → Bool
has_nul [] = false
has_nul (c ∷ cs) = (c == 0) || has_nul cs

abbrev pub data_of : CString → Option CString
data_of [] = none
data_of (c ∷ cs) = some (c ∷ cs)

abbrev pub params_of : Mount → Bool → SyscallParams
params_of m nod = record {
  source = m.source;
  target = m.target;
  fs_type = m.fs_type;
  flags = m.flags;
  data_ptr = data_of m.data_text;
  prefixes = path_prefix m.target;
  make_nod = nod;
}

-- `none` is the error EINVAL; a prefix of the target has no zero byte that the target has not.
unfoldable pub to_syscall : Mount → Option SyscallParams
to_syscall m =
    if has_nul m.source || (has_nul m.target || (has_nul m.fs_type || has_nul m.data_text))
    then none
    else some (params_of m false)

-- what os.Stat answers of a source
pub data Stat : Type 0 where
  not_exist other_error is_dir is_file : Stat

-- A Boolean, an error of a missing source, or the panic of a nil FileInfo.
pub data Probe : Type 0 where
  probed : Bool → Probe
  missing panics : Probe

unfoldable pub is_bind_mount_file_or_not_exists : (CString → Stat) → Mount → Probe
is_bind_mount_file_or_not_exists stat m =
    if has_flags m.flags ms_bind
    then elim (stat m.source) [
      | not_exist ↦ missing
      | other_error ↦ panics
      | is_dir ↦ probed false
      | is_file ↦ probed true
    ]
    else probed false

pub data Build : Type 0 where
  built : List SyscallParams → Build
  build_error build_panic : Build

abbrev pub push : SyscallParams → Build → Build
push p (built ps) = built (p ∷ ps)
push p build_error = build_error
push p build_panic = build_panic

abbrev pub with_nod : Bool → Option SyscallParams → Build → Build
with_nod nod none rest = build_error
with_nod nod (some p) rest = push (record p { make_nod = nod }) rest

unfoldable pub build : (CString → Stat) → Bool → List Mount → Build
unfolding is_bind_mount_file_or_not_exists to_syscall
build stat skip [] = built []
build stat skip (m ∷ ms) =
    let rest = build stat skip ms in
    elim (is_bind_mount_file_or_not_exists stat m) [
      | missing ↦ if skip then rest else build_error
      | panics ↦ build_panic
      | probed nod ↦ with_nod nod (to_syscall m) rest
    ]
