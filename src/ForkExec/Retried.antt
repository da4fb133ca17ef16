-- ===== src/ForkExec/Retried.antt =====
-- The repeated execve of the child, and the fuel that it needs.
use go_sandbox.ForkExec.Child.{exec_retry, etxtbsy}
use go_sandbox.Common.{
  [], ◌∷◌, zero, suc, ℕ, List, ◌++◌, ◌≢◌, if◌then◌else◌, ◌<◌, ◌==◌, ◌≡◌, nat_eq, arith, ◌∙◌,
}
use go_sandbox.ForkExec.Calls.{Call, Oracle, ask, ◌>>=◌, Outcome, done, jump, goes, child_error}
use go_sandbox.ForkExec.Fds.Placement.{differ}

-- the calls after so many tries
abbrev pub after_tries : Call → ℕ → List Call → List Call
after_tries c zero log = log
after_tries c (suc n) log = after_tries c n (log ++ c ∷ [])

module _ (oracle : Oracle) (c : Call) where
  -- the first try decides unless it is answered with ETXTBSY
  retry_step : ℕ → List Call → Outcome (Unit {0}) × List Call
  retry_step fuel log =
      if (oracle log c).err == etxtbsy
      then exec_retry oracle fuel c (log ++ c ∷ [])
      else (if (oracle log c).err == 0
          then (goes tt, log ++ c ∷ [])
          else (child_error (oracle log c).err, log ++ c ∷ []))

  exec_retry-step :
      (fuel : ℕ) (log : List Call) → exec_retry oracle (suc fuel) c log ≡ retry_step fuel log
  unfolding exec_retry retry_step ask ◌>>=◌ done jump
  exec_retry-step fuel log = ground arith

  -- what the answer of the last try makes of the child
  abbrev pub decided : ℕ → Outcome (Unit {0})
  decided err = if err == 0 then goes tt else child_error err

  -- Where the kernel answers ETXTBSY to exactly the first `n` tries, the child makes one more, whose
  -- answer decides: no error is a program that runs, and any other error is the child's. Any fuel
  -- above `n` is enough.
  pub exec_retry-tries :
      (fuel n : ℕ) (log : List Call)
      → ((k : ℕ) → k < n → (oracle (after_tries c k log) c).err ≡ etxtbsy)
      → (oracle (after_tries c n log) c).err ≢ etxtbsy
      → n < fuel
      → exec_retry oracle fuel c log
        ≡ (decided (oracle (after_tries c n log) c).err, after_tries c (suc n) log)
  unfolding retry_step
  exec_retry-tries zero n log busy ne lt = absurd (omega arith)
  exec_retry-tries (suc fuel) zero log busy ne lt =
      exec_retry-step fuel log ∙ rw (differ (oracle log c).err etxtbsy ne) (ground arith)
  exec_retry-tries (suc fuel) (suc n) log busy ne lt =
      exec_retry-step fuel log
      ∙ rw (busy 0 (omega arith)) (
          exec_retry-tries fuel n (log ++ c ∷ []) (λ k l. busy (suc k) (omega arith)) ne
            (omega arith))
