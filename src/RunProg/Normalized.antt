-- ===== src/RunProg/Normalized.antt =====
-- The limits that runprog hands on, and what it reports.
use go_sandbox.Common.{◌+◌, ◌<◌, ◌^◌, ◌≤◌, ◌≡◌, arith, ◌↔◌, ap, if◌then◌else◌, ◌∙◌, refl}
use go_sandbox.RunProg.{normalize_limits, Limits, report, get_status, line, code_of}
use go_sandbox.Ptracer.Events.{OrError, value, error}
use go_sandbox.Runner.{Result, normal, Status, is_normal}

-- The normalized limits: the real time is not below the time, and the stack not above the memory.
pub normalize_limits-ordered :
    (l : Limits)
    → l.time_limit + 2 < 2 ^ 64
    → ((normalize_limits l).time_limit ≤ (normalize_limits l).real_time_limit)
      × ((normalize_limits l).stack_limit ≤ (normalize_limits l).memory_limit)
      × ((normalize_limits l).time_limit ≡ l.time_limit)
      × ((normalize_limits l).memory_limit ≡ l.memory_limit)
unfolding normalize_limits
normalize_limits-ordered l lt = ground arith

value-inj : {A : Type 0} {x y : A} → value x ≡ value y → x ≡ y
value-inj e = cc

line-normal :
    (s : Status) (rt : Result)
    → ((if is_normal s then line 0 0 rt else line (get_status s) (code_of s) rt).status_number ≡ 0)
      ↔ (s ≡ normal)
unfolding get_status
line-normal s rt = ground arith

-- What main prints begins with the number 0 exactly for a result with a normal status.
pub report-status :
    (r : OrError Result)
    → ((report r).status_number ≡ 0) ↔ ((rt : Result) × (r ≡ value rt) × (rt.status ≡ normal))
unfolding report get_status
report-status (error e) = (λ h. absurd (ground arith), λ h. (let (rt, eq, s) = h in cc))
report-status (value rt) = (
  λ h. (rt, refl, (line-normal rt.status rt).0 h),
  λ h. (line-normal rt.status rt).1 (ap (λ x. x.status) (value-inj h.1) ∙ h.2),
)
