-- ===== src/Unshare/Verdict.antt =====
-- What the result of the unshare runner says of the process.
use go_sandbox.Runner.{
  zero_result, Limit, Result, normal, invalid, Rusage, is_normal, user_mem, user_time,
}
use go_sandbox.Ptracer.Events.{
  Wait, WaitStatus, reaped, failed, signaled, exited, stopped, interrupted, continued,
}
use go_sandbox.Common.{
  [], ◌∷◌, zero, suc, none, some, List, Bool, false, ℕ, Option, ◌≡◌, true, ◌||◌, ◌≢◌, ltb, arith,
  inl, ◌⊎◌, refl, is_some, Bool-cases, Option-cases, sym, inr, ◌∙◌, subst,
}
use go_sandbox.Unshare.{
  fatal_status, usage_status, on_status, usage_result, or_else, wait_loop, wait_from,
}
use go_sandbox.Common.Int.{ltℤ, pos}

module _ (limit : Limit) where
  -- Somewhere in the answers the process has exited with code 0, with a usage within the limits
  -- that is the one of the result.
  abbrev pub ExitsWell : List Wait → Result → Type 0
  ExitsWell [] r = ⊥
  ExitsWell (reaped _ (exited zero) ru ∷ ws) r =
      ((ltb limit.memory_limit (user_mem ru) ≡ false)
        × (ltℤ limit.time_limit (user_time ru) ≡ false)
        × (r.exit_status ≡ pos 0)
        × (r.time ≡ user_time ru)
        × (r.memory ≡ user_mem ru))
      ⊎ ExitsWell ws r
  ExitsWell (_ ∷ ws) r = ExitsWell ws r

  -- the answers after which no further one is awaited
  abbrev pub is_end : Wait → Bool
  is_end (failed _) = true
  is_end (reaped _ (exited _) _) = true
  is_end (reaped _ (signaled _) _) = true
  is_end _ = false

  abbrev pub has_end : List Wait → Bool
  has_end [] = false
  has_end (w ∷ ws) = is_end w || has_end ws

  fatal_status-ne : (sig : ℕ) → (fatal_status sig ≢ normal) × (fatal_status sig ≢ invalid)
  unfolding fatal_status
  fatal_status-ne sig = ground arith

  abbrev Verdict : List Wait → Option Result → Type 0
  Verdict ws none = has_end ws ≡ false
  Verdict ws (some r) = (r.status ≢ invalid) × (r.status ≡ normal → ExitsWell ws r)

  abbrev within : Rusage → Bool
  within ru = is_normal (usage_status limit ru normal)

  exceeded-Verdict :
      (p : ℕ) (w : WaitStatus) (ru : Rusage) (ws : List Wait)
      → within ru ≡ false
      → Verdict (reaped p w ru ∷ ws) (some (usage_result limit ru normal))
  unfolding usage_status
  exceeded-Verdict p w ru ws h = (ground arith, ground arith)

  within-limits :
      (ru : Rusage)
      → within ru ≡ true
      → (ltb limit.memory_limit (user_mem ru) ≡ false)
        × (ltℤ limit.time_limit (user_time ru) ≡ false)
  unfolding usage_status
  within-limits ru h = ground arith

  exited-Verdict :
      (p code : ℕ) (ru : Rusage) (ws : List Wait) (o : Option Result)
      → within ru ≡ true
      → Verdict
          (reaped p (exited code) ru ∷ ws)
          (or_else (on_status (exited code) (usage_result limit ru normal)) o)
  unfolding on_status
  exited-Verdict p zero ru ws o h =
      let (m, t) = within-limits ru h in (ground arith, λ _. inl (m, t, refl, refl, refl))
  exited-Verdict p (suc c) ru ws o h = (ground arith, ground arith)

  signaled-Verdict :
      (p sig : ℕ) (ru : Rusage) (ws : List Wait) (o : Option Result)
      → Verdict
          (reaped p (signaled sig) ru ∷ ws)
          (or_else (on_status (signaled sig) (usage_result limit ru normal)) o)
  unfolding on_status
  signaled-Verdict p sig ru ws o = let (n, i) = fatal_status-ne sig in (i, λ h. absurd (n h))

  Verdict-later :
      (w : Wait) (ws : List Wait) (o : Option Result)
      → is_end w ≡ false
      → Verdict ws o
      → Verdict (w ∷ ws) o
  Verdict-later interrupted ws none e v = v
  Verdict-later interrupted ws (some r) e v = v
  Verdict-later (reaped p (stopped a b) ru) ws none e v = v
  Verdict-later (reaped p (stopped a b) ru) ws (some r) e v = v
  Verdict-later (reaped p continued ru) ws none e v = v
  Verdict-later (reaped p continued ru) ws (some r) e v = v
  Verdict-later (failed t) ws o e v = cc
  Verdict-later (reaped p (exited c) ru) ws o e v = cc
  Verdict-later (reaped p (signaled c) ru) ws o e v = cc

  status-Verdict :
      (p : ℕ) (w : WaitStatus) (ru : Rusage) (ws : List Wait) (o : Option Result)
      → within ru ≡ true
      → Verdict ws o
      → Verdict (reaped p w ru ∷ ws) (or_else (on_status w (usage_result limit ru normal)) o)
  unfolding on_status
  status-Verdict p (exited code) ru ws o h v = exited-Verdict p code ru ws o h
  status-Verdict p (signaled sig) ru ws o h v = signaled-Verdict p sig ru ws o
  status-Verdict p (stopped a b) ru ws o h v = Verdict-later (reaped p (stopped a b) ru) ws o refl v
  status-Verdict p continued ru ws o h v = Verdict-later (reaped p continued ru) ws o refl v

  true-ne-false : true ≢ false
  true-ne-false e = ground arith

  wait_from-Verdict : (before : Result) (ws : List Wait) → Verdict ws (wait_from limit before ws)
  unfolding wait_from
  wait_from-Verdict before [] = refl
  wait_from-Verdict before (interrupted ∷ ws) =
      Verdict-later interrupted ws (wait_from limit before ws) refl (wait_from-Verdict before ws)
  wait_from-Verdict before (failed e ∷ ws) = (ground arith, ground arith)
  wait_from-Verdict before (reaped p w ru ∷ ws) =
      let r = usage_result limit ru normal in
      elim (Bool-cases (within ru)) [
        | inr b ↦ rw b (exceeded-Verdict p w ru ws b)
        | inl b ↦ rw b (status-Verdict p w ru ws (wait_from limit r ws) b (wait_from-Verdict r ws))
      ]

  wait_loop-Verdict : (ws : List Wait) → Verdict ws (wait_loop limit ws)
  unfolding wait_loop
  wait_loop-Verdict ws = wait_from-Verdict zero_result ws

  -- Whatever wait4 answers: a process that has ended has a result, never with the status `invalid`,
  -- and the result is `normal` only where the process exited with code 0 within both limits.
  pub wait_loop_verdict :
      (ws : List Wait)
      → (has_end ws ≡ true → is_some (wait_loop limit ws) ≡ true)
        × ((r : Result)
            → wait_loop limit ws ≡ some r
            → (r.status ≢ invalid) × (r.status ≡ normal → ExitsWell ws r))
  wait_loop_verdict ws = (
    λ h. elim (Option-cases (wait_loop limit ws)) [
      | inl e ↦ absurd (true-ne-false (sym h ∙ subst (Verdict ws) e (wait_loop-Verdict ws)))
      | inr (r, e) ↦ rw e refl
    ],
    λ r e. subst (Verdict ws) e (wait_loop-Verdict ws),
  )
