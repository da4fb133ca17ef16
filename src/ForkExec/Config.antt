-- ===== src/ForkExec/Config.antt =====
-- Runner of pkg/forkexec/runner_linux.go, with the constants of consts_linux.go.
use Prim.Native.Nat.{bit_and}
use go_sandbox.Common.{List, ℕ, Bool, Option, ◌+◌, ◌==◌, nat_eq}
use go_sandbox.Common.Int.{ℤ}

-- A path or name as the bytes that a C string points to.
abbrev pub CString : Type 0
CString = List ℕ

-- mount.SyscallParams of pkg/mount/mount.go; a nil pointer is `none`.
pub record SyscallParams : Type 0 where
  pub source : CString
  pub target : CString
  pub fs_type : CString
  pub flags : ℕ
  pub data_ptr : Option CString
  pub prefixes : List CString
  pub make_nod : Bool

-- rlimit.RLimit of pkg/rlimit/rlimit.go
pub record RLimit : Type 0 where
  pub res : ℕ
  pub cur : ℕ
  pub max : ℕ

-- syscall.Credential
pub record Credential : Type 0 where
  pub uid : ℕ
  pub gid : ℕ
  pub groups : List ℕ
  pub no_set_groups : Bool

-- syscall.SysProcIDMap
pub record IdMap : Type 0 where
  pub container_id : ℕ
  pub host_id : ℕ
  pub size : ℕ

-- The fields that the child and the synchronisation read. `seccomp` says whether a filter is given;
-- a nil slice of mappings is `none`.
pub record Runner : Type 0 where
  pub exec_file : ℕ
  pub rlimits : List RLimit
  pub files : List ℤ
  pub seccomp : Bool
  pub ptrace : Bool
  pub no_new_privs : Bool
  pub stop_before_seccomp : Bool
  pub clone_flags : ℕ
  pub mounts : List SyscallParams
  pub drop_caps : Bool
  pub uid_mappings : Option (List IdMap)
  pub gid_mappings : Option (List IdMap)
  pub gid_mappings_enable_setgroups : Bool
  pub credential : Option Credential
  pub unshare_cgroup_after_sync : Bool

abbrev pub clone_newns : ℕ
clone_newns = 0x00020000

abbrev pub clone_newuser : ℕ
clone_newuser = 0x10000000

-- CLONE_NEWIPC | NEWNET | NEWNS | NEWPID | NEWUSER | NEWUTS | NEWCGROUP
abbrev pub unshare_flags : ℕ
unshare_flags = 0x7e020000

abbrev pub ms_rdonly : ℕ
ms_rdonly = 1

abbrev pub ms_nosuid : ℕ
ms_nosuid = 2

abbrev pub ms_remount : ℕ
ms_remount = 32

abbrev pub ms_noatime : ℕ
ms_noatime = 1024

abbrev pub ms_bind : ℕ
ms_bind = 4096

abbrev pub ms_rec : ℕ
ms_rec = 16384

abbrev pub ms_private : ℕ
ms_private = 0x40000

abbrev pub bind_ro : ℕ
bind_ro = ms_bind + ms_rdonly

-- flags & mask == mask
unfoldable pub has_flags : ℕ → ℕ → Bool
has_flags flags mask = bit_and flags mask == mask

unfoldable pub unshare_user : Runner → Bool
unshare_user r = has_flags r.clone_flags clone_newuser

-- the secure bits of the two prctl calls
abbrev pub secure_keep : ℕ
secure_keep = 0x20 + 0x4 + 0x8

abbrev pub secure_drop : ℕ
secure_drop = 0x20 + 0x4 + 0x8 + 0x1 + 0x2
