-- ===== src/Container/Exchange/Finished.antt =====
-- Whatever the order of the steps, an exchange comes to its end.
use go_sandbox.Common.{
  zero, suc, true, false, ℕ, is_nil, ◌≡◌, arith, ◌<◌, Bool-cases, inl, inr, ◌∙◌,
}
use go_sandbox.Container.Exchange.{State, Reaches, steps, move}
use go_sandbox.Container.Exchange.Balanced.{
  is_over, rank, is_clean, exchange_balanced, Reaches-rank,
}
use go_sandbox.Common.Explore.{Among}

-- Every way to go on comes to such a state, and there is always a way to go on before it.
pub data Inevitable (P : State → Type 0) : State → Type 0 where
  now : (s : State) → P s → Inevitable P s
  later :
      (s : State)
      → is_nil (steps s) ≡ false
      → ((t : State) → Among t (steps s) → Inevitable P t)
      → Inevitable P s

-- Execve has returned with its goroutines, the server is idle and the queues are empty.
abbrev pub IsFinished : State → Type 0
IsFinished s = (is_over s.host ≡ true) × (is_clean s ≡ true)

finishes_within : (n : ℕ) (s : State) → Reaches s → rank s < n → Inevitable IsFinished s
finishes_within zero s r lt = absurd (omega arith)
finishes_within (suc n) s r lt =
    let (stops, clean) = exchange_balanced s r in
    elim (Bool-cases (is_over s.host)) [
      | inl o ↦ now s (o, clean o)
      | inr o ↦
          later s (stops ∙ o)
            (λ t m. finishes_within n t (move s t r m) (omega (arith, Reaches-rank s t r m)))
    ]

-- From every state that an exchange reaches, each sequence of steps, whatever SyncFunc, the kernel,
-- the context and the scheduler decide, comes to the state in which Execve has returned with both its
-- goroutines, the server is idle again and nothing is left in the queues.
pub exchange_finishes : (s : State) → Reaches s → Inevitable IsFinished s
exchange_finishes s r = finishes_within (suc (rank s)) s r (omega arith)
