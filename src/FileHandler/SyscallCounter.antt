-- ===== src/FileHandler/SyscallCounter.antt =====
-- SyscallCounter of runner/ptrace/filehandler/syscallcounter.go. A counter is a Go `int`, of 64 bits.
pub mod Budget
use go_sandbox.Common.{
  ℕ, zero, suc, ◌-◌, ◌^◌, String, Bool, true, false, Option, none, some, List, [], ◌∷◌,
  if◌then◌else◌, ◌==◌, nat_eq, string_eq,
}
use go_sandbox.Common.Dict.{Dict, lookup, insert}
use go_sandbox.Common.Int.{ℤ, pos, negsuc, leℤ}

abbrev pub SyscallCounter : Type 0
SyscallCounter = Dict String ℤ

abbrev pub new_syscall_counter : SyscallCounter
new_syscall_counter = []

-- n - 1 on int64: the least number wraps round to the greatest
unfoldable pub pred_int64 : ℤ → ℤ
pred_int64 (pos zero) = negsuc 0
pred_int64 (pos (suc n)) = pos n
pred_int64 (negsuc n) = if n == 2 ^ 63 - 1 then pos (2 ^ 63 - 1) else negsuc (suc n)

unfoldable pub add : SyscallCounter → String → ℤ → SyscallCounter
add s name count = insert name count s

-- The keys of `m` differ, so the order in which Go visits them does not matter.
unfoldable pub add_range : SyscallCounter → Dict String ℤ → SyscallCounter
add_range s [] = s
add_range s ((k, v) ∷ m) = add_range (insert k v s) m

-- The counter behind the call, and the two results: inside, allow.
pub record Checked : Type 0 where
  pub counter : SyscallCounter
  pub inside : Bool
  pub allow : Bool

abbrev pub count_down : SyscallCounter → String → Option ℤ → Checked
count_down s name none = record { counter = s; inside = false; allow = true }
count_down s name (some n) = record {
  counter = insert name (pred_int64 n) s;
  inside = true;
  allow = if leℤ n (pos 1) then false else true;
}

unfoldable pub check : SyscallCounter → String → Checked
unfolding pred_int64
check s name = count_down s name (lookup name s)
