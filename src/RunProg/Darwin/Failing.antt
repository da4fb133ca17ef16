-- ===== src/RunProg/Darwin/Failing.antt =====
-- What runprog reports on Darwin.
use go_sandbox.Common.{
  [], ◌∷◌, zero, suc, none, some, ℕ, List, Option, String, ◌≡◌, ◌≢◌, ◌∙◌, refl, arith, ap, subst,
}
use go_sandbox.RunProg.{Limits, report}
use go_sandbox.RunProg.Darwin.{
  DarwinAnswers, start_darwin, darwin_wait_loop, or_wait, or_return, ended_by, ended_result,
  limit_verdict,
}
use go_sandbox.RunProg.Normalized.{report-status}
use go_sandbox.Runner.{Result, Rusage, normal}
use go_sandbox.Unshare.{fatal_status}
use go_sandbox.Ptracer.Events.{
  OrError, value, error, Wait, WaitStatus, interrupted, failed, reaped, exited, signaled, stopped,
  continued,
}

-- No normal result.
abbrev Abnormal : Option (OrError Result) → Type 0
Abnormal none = Unit
Abnormal (some (error e)) = Unit
Abnormal (some (value r)) = r.status ≢ normal

ended_by-Abnormal :
    (w : WaitStatus) (r : Result) (rest : Option (OrError Result))
    → Abnormal rest
    → Abnormal (or_wait (ended_by w r) rest)
unfolding ended_by fatal_status
ended_by-Abnormal (exited zero) r rest h = h
ended_by-Abnormal (exited (suc c)) r rest h = ground arith
ended_by-Abnormal (signaled sig) r rest h = ground arith
ended_by-Abnormal (stopped a b) r rest h = h
ended_by-Abnormal continued r rest h = h

module _ (l : Limits) where
  darwin_wait_loop-Abnormal :
      (s m : ℕ) (ws : List (Wait × ℕ)) → Abnormal (darwin_wait_loop l s m ws)
  unfolding darwin_wait_loop
  darwin_wait_loop-Abnormal s m [] = tt
  darwin_wait_loop-Abnormal s m ((interrupted, f) ∷ ws) = darwin_wait_loop-Abnormal s m ws
  darwin_wait_loop-Abnormal s m ((failed e, f) ∷ ws) = tt
  darwin_wait_loop-Abnormal s m ((reaped pid w ru, f) ∷ ws) =
      ended_by-Abnormal w (ended_result (limit_verdict l ru) s m f ru) (darwin_wait_loop l s m ws)
        (darwin_wait_loop-Abnormal s m ws)

  or_return-Abnormal :
      (e : Option String) (rest : Option (OrError Result))
      → Abnormal rest
      → Abnormal (or_return e rest)
  or_return-Abnormal none rest h = h
  or_return-Abnormal (some e) rest h = tt

  start_darwin-Abnormal : (a : DarwinAnswers) → Abnormal (start_darwin l a)
  unfolding start_darwin
  start_darwin-Abnormal a = or_return-Abnormal a.files_error _ (
      or_return-Abnormal a.profile_error _ (
        or_return-Abnormal a.start_error _
          (darwin_wait_loop-Abnormal a.started_at a.synced_at a.waits)))

  -- interrupted waits, then an answer
  abbrev pub interrupts : List ℕ → List (Wait × ℕ) → List (Wait × ℕ)
  interrupts [] ws = ws
  interrupts (f ∷ fs) ws = (interrupted, f) ∷ interrupts fs ws

  darwin_wait_loop-interrupts :
      (s m : ℕ) (fs : List ℕ) (ws : List (Wait × ℕ))
      → darwin_wait_loop l s m (interrupts fs ws) ≡ darwin_wait_loop l s m ws
  unfolding darwin_wait_loop
  darwin_wait_loop-interrupts s m [] ws = refl
  darwin_wait_loop-interrupts s m (f ∷ fs) ws = darwin_wait_loop-interrupts s m fs ws

  -- Behind an exit with code 0, start returns the error of the next wait that is not interrupted.
  pub darwin_wait_loop-exited :
      (s m f f' pid : ℕ) (fs : List ℕ) (ru : Rusage) (e : String) (ws : List (Wait × ℕ))
      → darwin_wait_loop l s m ((reaped pid (exited 0) ru, f) ∷ interrupts fs ((failed e, f') ∷ ws))
        ≡ some (error e)
  unfolding darwin_wait_loop ended_by
  darwin_wait_loop-exited s m f f' pid fs ru e ws =
      darwin_wait_loop-interrupts s m fs ((failed e, f') ∷ ws)

  -- Whatever the calls answer, the number that runprog prints first on Darwin is never 0, the one of a
  -- normal run.
  pub start_darwin-report :
      (a : DarwinAnswers) (r : OrError Result)
      → start_darwin l a ≡ some r
      → (report r).status_number ≢ 0
  start_darwin-report a r e z =
      let (rt, v, n) = (report-status r).0 z in
      subst Abnormal (e ∙ ap some v) (start_darwin-Abnormal a) n
