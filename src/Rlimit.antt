-- ===== src/Rlimit.antt =====
-- pkg/rlimit/rlimit.go: the resource limits of a process, for the prlimit calls of its start.
pub mod Prepared
use go_sandbox.ForkExec.Config.{RLimit}
use go_sandbox.Common.{ℕ, List, if◌then◌else◌, ◌++◌, ltb, ◌∷◌, []}

pub record RLimits : Type 0 where
  pub cpu : ℕ
  pub cpu_hard : ℕ
  pub data_size : ℕ
  pub file_size : ℕ
  pub stack : ℕ
  pub address_space : ℕ

abbrev pub rlimit_cpu : ℕ
rlimit_cpu = 0

abbrev pub rlimit_fsize : ℕ
rlimit_fsize = 1

abbrev pub rlimit_data : ℕ
rlimit_data = 2

abbrev pub rlimit_stack : ℕ
rlimit_stack = 3

abbrev pub rlimit_as : ℕ
rlimit_as = 9

-- getRlimit, with its resource
abbrev pub get_rlimit : ℕ → ℕ → ℕ → RLimit
get_rlimit res cur max = record { res = res; cur = cur; max = max }

-- if cur > 0 { ret = append(ret, ...) }
unfoldable pub limit_if : ℕ → ℕ → ℕ → List RLimit
limit_if res cur max = if ltb 0 cur then get_rlimit res cur max ∷ [] else []

abbrev pub hard_cpu : RLimits → ℕ
hard_cpu r = if ltb r.cpu_hard r.cpu then r.cpu else r.cpu_hard

unfoldable pub prepare_rlimit : RLimits → List RLimit
unfolding limit_if
prepare_rlimit r =
    limit_if rlimit_cpu r.cpu (hard_cpu r)
    ++ (limit_if rlimit_data r.data_size r.data_size
        ++ (limit_if rlimit_fsize r.file_size r.file_size
            ++ (limit_if rlimit_stack r.stack r.stack
                ++ limit_if rlimit_as r.address_space r.address_space)))
