-- ===== src/Examples/Filtering.antt =====
-- The codes of a filter at the numbers of the kernel.
use go_sandbox.Common.{◌/◌, arith, ◌^◌, ◌<◌, refl, ◌*◌, ◌+◌, ◌≡◌, ◌%◌}
use go_sandbox.Seccomp.{
  BpfActions, with_return_code, to_seccomp_action, action_trace, return_code, base_action,
  act_trace,
}
use go_sandbox.Seccomp.Codes.{
  DataLaws, unsigned_lt, with_return_code-return_code, policy_of-read_msg,
}
use go_sandbox.Ptracer.Events.{read_msg, msg_of, msg_handle}
use go_sandbox.Common.Int.{negsuc, pos, unsigned}

abbrev kernel_actions : BpfActions
kernel_actions = record {
  allow = 0x7fff0000;
  errno = 0x00050000;
  trace = 0x7ff00000;
  kill_process = 0x80000000;
  with_return_data = λ x code. x / 2 ^ 16 * 2 ^ 16 + unsigned 16 code;
}

kernel_actions-DataLaws : DataLaws kernel_actions
kernel_actions-DataLaws = record {
  trace_high = refl;
  keeps_data = λ x code h. (let lt = unsigned_lt code in omega arith);
}

with_return_code-return_code_example :
    (with_return_code 3 (negsuc 0) < 2 ^ 32)
    × (return_code (with_return_code 3 (negsuc 0)) ≡ negsuc 0)
    × (base_action (with_return_code 3 (negsuc 0)) ≡ base_action 3)
with_return_code-return_code_example = with_return_code-return_code 3 (negsuc 0) (ground arith)

policy_of-read_msg_example :
    (read_msg (to_seccomp_action kernel_actions (with_return_code action_trace (pos 1)) % 2 ^ 16)
      ≡ msg_of (pos 1))
    × (read_msg (act_trace kernel_actions % 2 ^ 16) ≡ msg_handle)
policy_of-read_msg_example =
    policy_of-read_msg kernel_actions kernel_actions-DataLaws (pos 1) (ground arith)
