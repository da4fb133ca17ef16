-- ===== src/Seccomp.antt =====
-- The actions of a filter, pkg/seccomp/action.go, and the filter that pkg/seccomp/libseccomp builds. The
-- assemblers of go-seccomp-bpf and x/net/bpf are parameters.
pub mod Codes
use Prim.Native.Nat.{bit_and, bit_or}
use go_sandbox.Common.{
  [], ◌∷◌, none, some, true, false, ℕ, List, String, if◌then◌else◌, ◌==◌, nat_eq, ◌/◌, ◌*◌, ◌^◌,
  ◌%◌,
}
use go_sandbox.Ptracer.Events.{OrError, error, value}
use go_sandbox.Common.Int.{ℤ, signed, unsigned}

abbrev pub action_allow : ℕ
action_allow = 1

abbrev pub action_errno : ℕ
action_errno = 2

abbrev pub action_trace : ℕ
action_trace = 3

abbrev pub action_kill : ℕ
action_kill = 4

-- the method Action of a uint32
unfoldable pub base_action : ℕ → ℕ
base_action a = bit_and a 0xffff

-- int16(a >> 16)
unfoldable pub return_code : ℕ → ℤ
return_code a = signed 16 (a / 2 ^ 16)

-- a.Action() | Action(code)<<16, where the conversion of an int16 extends its sign
unfoldable pub with_return_code : ℕ → ℤ → ℕ
unfolding base_action
with_return_code a code = bit_or (base_action a) (unsigned 32 code * 2 ^ 16 % 2 ^ 32)

-- The actions of go-seccomp-bpf, and its WithReturnData.
pub record BpfActions : Type 0 where
  pub allow : ℕ
  pub errno : ℕ
  pub trace : ℕ
  pub kill_process : ℕ
  pub with_return_data : ℕ → ℤ → ℕ

pub record SyscallGroup : Type 0 where
  pub action : ℕ
  pub names : List String

pub record Policy : Type 0 where
  pub default_action : ℕ
  pub syscalls : List SyscallGroup

-- bpf.RawInstruction and syscall.SockFilter, which have the same four fields
pub record RawInstruction : Type 0 where
  pub op : ℕ
  pub jump_true : ℕ
  pub jump_false : ℕ
  pub k : ℕ

pub record SockFilter : Type 0 where
  pub code : ℕ
  pub jt : ℕ
  pub jf : ℕ
  pub k : ℕ

pub record Builder : Type 0 where
  pub allow : List String
  pub trace : List String
  pub default : ℕ

abbrev pub sock_filter : List RawInstruction → List SockFilter
sock_filter [] = []
sock_filter (i ∷ raw) =
    record { code = i.op; jt = i.jump_true; jf = i.jump_false; k = i.k } ∷ sock_filter raw

module _ (bpf : BpfActions) where
  unfoldable pub to_bpf_action : ℕ → ℕ
  unfolding base_action
  to_bpf_action a =
      let b = base_action a in
      if b == action_allow
      then bpf.allow
      else if b == action_errno
      then bpf.errno
      else if b == action_trace
      then bpf.trace
      else bpf.kill_process

  unfoldable pub to_seccomp_action : ℕ → ℕ
  unfolding return_code to_bpf_action
  to_seccomp_action a = bpf.with_return_data (to_bpf_action a) (return_code a)

  -- libseccomp.ActionTrace | libseccomp.Action(seccomp.MsgHandle)
  abbrev pub act_trace : ℕ
  act_trace = bit_or bpf.trace 2

  unfoldable pub policy_of : Builder → Policy
  unfolding to_seccomp_action
  policy_of b = record {
    default_action = to_seccomp_action b.default;
    syscalls =
        record { action = bpf.allow; names = b.allow }
        ∷ record { action = act_trace; names = b.trace }
        ∷ [];
  }

  module _ {Instruction : Type 0} (assemble : Policy → OrError (List Instruction))
      (bpf_assemble : List Instruction → OrError (List RawInstruction)) where
    unfoldable pub export_bpf : List Instruction → OrError (List SockFilter)
    export_bpf filter = elim (bpf_assemble filter) [
      | error e ↦ error e
      | value raw ↦ value (sock_filter raw)
    ]

    unfoldable pub build_filter : Builder → OrError (List SockFilter)
    unfolding policy_of export_bpf
    build_filter b = elim (assemble (policy_of b)) [
      | error e ↦ error e
      | value program ↦ export_bpf program
    ]
