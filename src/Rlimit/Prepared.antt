-- ===== src/Rlimit/Prepared.antt =====
-- Which limits a process gets.
use go_sandbox.Rlimit.{
  RLimits, limit_if, rlimit_cpu, rlimit_data, rlimit_fsize, rlimit_stack, rlimit_as, prepare_rlimit,
}
use go_sandbox.ForkExec.Config.{RLimit}
use go_sandbox.Common.{
  ℕ, if◌then◌else◌, Bool, how_many, ◌==◌, nat_eq, ◌&&◌, ◌≡◌, not, ltb, arith, true,
}
use go_sandbox.Common.Explore.{each}

-- the limit that is asked for a resource, 0 where there is none
abbrev pub asked : RLimits → ℕ → ℕ
asked r res =
    if res == rlimit_cpu
    then r.cpu
    else if res == rlimit_data
    then r.data_size
    else if res == rlimit_fsize
    then r.file_size
    else if res == rlimit_stack
    then r.stack
    else if res == rlimit_as
    then r.address_space
    else 0

-- a limit that can be set: positive, the one that is asked for, and not above its hard limit
abbrev pub is_fit : RLimits → RLimit → Bool
is_fit r l = ltb 0 l.cur && ((l.cur == asked r l.res) && not (ltb l.max l.cur))

-- Each limit of the result is fit, and a resource has exactly one where a limit is asked for it and
-- none otherwise.
pub prepare_rlimit-Fit :
    (r : RLimits)
    → (each (is_fit r) (prepare_rlimit r) ≡ true)
      × ((res : ℕ)
          → how_many (λ l. l.res == res) (prepare_rlimit r)
            ≡ (if ltb 0 (asked r res) then 1 else 0))
unfolding prepare_rlimit limit_if
prepare_rlimit-Fit r = (ground arith, λ res. ground arith)
