-- ===== src/Seccomp/Codes.antt =====
-- An action keeps its code, through the filter and the kernel, until the tracer reads it.
use go_sandbox.Common.{ℕ, ◌<◌, ◌≡◌, ◌^◌, ◌%◌, arith, ◌+◌, ◌*◌, ◌/◌, ◌∙◌, sym, ap, refl}
use go_sandbox.Common.Int.{ℤ, signed, pos, unsigned, negsuc}
use go_sandbox.Seccomp.{
  base_action, with_return_code, return_code, BpfActions, to_bpf_action, to_seccomp_action,
  action_trace, act_trace,
}
use go_sandbox.Common.Bits.{bit_and-0xffff, bit_or-disjoint, bit_or_comm}
use Prim.Native.Nat.{bit_or}
use go_sandbox.Ptracer.Events.{read_msg, msg_of, msg_handle}

-- the values of an int16
abbrev pub IsInt16 : ℤ → Type 0
IsInt16 (pos n) = n < 2 ^ 15
IsInt16 (negsuc n) = n < 2 ^ 15

base_action_lem : (a : ℕ) → base_action a ≡ a % 2 ^ 16
unfolding base_action
base_action_lem a = bit_and-0xffff a

high_half : (code : ℤ) → unsigned 32 code * 2 ^ 16 % 2 ^ 32 ≡ unsigned 16 code * 2 ^ 16
high_half (pos n) = omega arith
high_half (negsuc n) = omega arith

pub unsigned_lt : (code : ℤ) → unsigned 16 code < 2 ^ 16
unsigned_lt (pos n) = omega arith
unsigned_lt (negsuc n) = omega arith

-- The code stands in the high half.
with_return_code_lem :
    (a : ℕ) (code : ℤ) → with_return_code a code ≡ a % 2 ^ 16 + unsigned 16 code * 2 ^ 16
unfolding with_return_code
with_return_code_lem a code =
    rw (high_half code, base_action_lem a)
      (bit_or-disjoint 16 (a % 2 ^ 16) (unsigned 16 code) (omega arith))

signed-unsigned : (code : ℤ) → IsInt16 code → signed 16 (unsigned 16 code) ≡ code
signed-unsigned (pos n) h = ground arith
signed-unsigned (negsuc n) h = ground arith

-- An action with a code is a uint32 that gives back the code, for every int16, and the action.
pub with_return_code-return_code :
    (a : ℕ) (code : ℤ)
    → IsInt16 code
    → (with_return_code a code < 2 ^ 32)
      × (return_code (with_return_code a code) ≡ code)
      × (base_action (with_return_code a code) ≡ base_action a)
unfolding return_code
with_return_code-return_code a code h =
    let lt = unsigned_lt code in
    let e = with_return_code_lem a code in
    let high : with_return_code a code / 2 ^ 16 ≡ unsigned 16 code = omega (arith, e, lt) in
    let low : with_return_code a code % 2 ^ 16 ≡ a % 2 ^ 16 = omega (arith, e, lt) in
    (
      omega (arith, e, lt),
      rw high (signed-unsigned code h),
      base_action_lem (with_return_code a code) ∙ low ∙ sym (base_action_lem a),
    )

-- WithReturnData of go-seccomp-bpf puts the low half of the data below an action, whose own low
-- half is zero.
pub record DataLaws (bpf : BpfActions) : Type 0 where
  pub trace_high : bpf.trace % 2 ^ 16 ≡ 0
  pub keeps_data :
      (x : ℕ) (code : ℤ) → x % 2 ^ 16 ≡ 0 → bpf.with_return_data x code % 2 ^ 16 ≡ unsigned 16 code

to_bpf_action-trace :
    (bpf : BpfActions) (a : ℕ) → base_action a ≡ action_trace → to_bpf_action bpf a ≡ bpf.trace
unfolding to_bpf_action
to_bpf_action-trace bpf a e = rw e refl

bit_or-high : (t : ℕ) → t % 2 ^ 16 ≡ 0 → bit_or t 2 ≡ t + 2
bit_or-high t h =
    let e : t ≡ t / 2 ^ 16 * 2 ^ 16 = omega (arith, h) in
    let o = bit_or-disjoint 16 2 (t / 2 ^ 16) (omega arith) in
    bit_or_comm t 2 ∙ ap (bit_or 2) e ∙ o ∙ omega (arith, h)

read_msg_lem : (code : ℤ) → IsInt16 code → read_msg (unsigned 16 code) ≡ msg_of code
unfolding read_msg
read_msg_lem code h = ap msg_of (signed-unsigned code h)

msg_of_two : read_msg 2 ≡ msg_handle
unfolding read_msg
msg_of_two = refl

to_seccomp_action_lem :
    (bpf : BpfActions) (a : ℕ)
    → to_seccomp_action bpf a ≡ bpf.with_return_data (to_bpf_action bpf a) (return_code a)
unfolding to_seccomp_action
to_seccomp_action_lem bpf a = refl

-- The kernel hands the low half of the action of a filter to the tracer. There the code of a traced
-- default action is read as it was given, and that of a traced call as the one to be handled.
pub policy_of-read_msg :
    (bpf : BpfActions) (laws : DataLaws bpf) (code : ℤ)
    → IsInt16 code
    → (read_msg (to_seccomp_action bpf (with_return_code action_trace code) % 2 ^ 16) ≡ msg_of code)
      × (read_msg (act_trace bpf % 2 ^ 16) ≡ msg_handle)
policy_of-read_msg bpf laws code h =
    let a = with_return_code action_trace code in
    let (_, round_trip, keeps) = with_return_code-return_code action_trace code h in
    let base : base_action a ≡ action_trace = keeps ∙ base_action_lem action_trace in
    let kept : to_seccomp_action bpf a % 2 ^ 16 ≡ unsigned 16 code =
      rw (to_seccomp_action_lem bpf a, to_bpf_action-trace bpf a base, round_trip)
        (laws.keeps_data bpf.trace code laws.trace_high) in
    let handled : act_trace bpf % 2 ^ 16 ≡ 2 =
      rw (bit_or-high bpf.trace laws.trace_high) (omega (arith, laws.trace_high)) in
    (rw kept (read_msg_lem code h), rw handled msg_of_two)
