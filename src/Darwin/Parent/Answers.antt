-- ===== src/Darwin/Parent/Answers.antt =====
-- What the parent returns, and what it has closed by then.
use go_sandbox.Common.{
  zero, suc, none, some, true, false, Option, ℕ, Bool, String, how_many, List, ◌==◌, ◌≡◌, nat_eq,
  ◌&&◌, if◌then◌else◌, ap, refl, not, is_some, Bool-cases, ◌||◌, inl, inr, Option-cases,
}
use go_sandbox.Darwin.Parent.{
  Act, Return, World, fail_closed, fail_open, waits, Error, close_own, kill_child, second_part,
  acknowledge, run_sync_func, sync_with_child, is_success, sync_error, pipe_error,
}

abbrev pub is_close_own : Act → Bool
is_close_own close_own = true
is_close_own _ = false

abbrev pub is_kill : Act → Bool
is_kill kill_child = true
is_kill _ = false

abbrev pub passes : Option (Option String) → Bool
passes (some (some e)) = false
passes _ = true

-- A silent failure: the pid 0, and no error.
abbrev pub is_silent : Return → Bool
is_silent r = (r.pid == 0) && not (is_some r.err)

no-kills : (n : ℕ) → how_many is_kill (waits n) ≡ 0
no-kills zero = refl
no-kills (suc n) = no-kills n

no-closes : (n : ℕ) → how_many is_close_own (waits n) ≡ 0
no-closes zero = refl
no-closes (suc n) = no-closes n

-- closes its end once, and kills the child exactly when it returns no pid
abbrev Settles : ℕ → Return × List Act → Type 0
Settles own (r, acts) =
    (how_many is_close_own acts ≡ own) × (how_many is_kill acts ≡ (if r.pid == 0 then 1 else 0))

module _ (w : World) where
  fail_closed-Settles : (err : Option Error) → Settles 0 (fail_closed w err)
  unfolding fail_closed
  fail_closed-Settles err = (no-closes w.interrupted, ap suc (no-kills w.interrupted))

  fail_open-Settles : (err : Option Error) → Settles 1 (fail_open w err)
  unfolding fail_open
  fail_open-Settles err = (ap suc (no-closes w.interrupted), ap suc (no-kills w.interrupted))

  second_part-Settles : (pid : ℕ) → (pid == 0) ≡ false → Settles 1 (second_part w pid)
  unfolding second_part
  second_part-Settles pid child =
      elim (Bool-cases (not (w.second_read.r1 == 0) || not (w.second_read.err == 0))) [
        | inl b ↦ rw b (ap suc (no-closes w.interrupted), ap suc (no-kills w.interrupted))
        | inr b ↦ rw (b, child) (refl, refl)
      ]

  second_part-silent : (pid : ℕ) → (pid == 0) ≡ false → is_silent (second_part w pid).0 ≡ false
  unfolding second_part
  second_part-silent pid child =
      elim (Bool-cases (not (w.second_read.r1 == 0) || not (w.second_read.err == 0))) [
        | inl b ↦ rw b refl
        | inr b ↦ rw (b, child) refl
      ]

  abbrev pub Answered : Bool → Return × List Act → Type 0
  Answered silent r = Settles 1 r × (is_silent r.0 ≡ silent)

  acknowledge-Answered :
      (pid : ℕ) → (pid == 0) ≡ false → Answered (not (w.ack_error == 0)) (acknowledge w pid)
  unfolding acknowledge
  acknowledge-Answered pid child = elim (Bool-cases (w.ack_error == 0)) [
    | inl b ↦ rw b (second_part-Settles pid child, second_part-silent pid child)
    | inr b ↦ rw b (fail_open-Settles none, refl)
  ]

  run_sync_func-Answered :
      (pid : ℕ)
      → (pid == 0) ≡ false
      → Answered (passes w.sync_result && not (w.ack_error == 0)) (run_sync_func w pid)
  unfolding run_sync_func
  run_sync_func-Answered pid child = elim (Option-cases w.sync_result) [
    | inl n ↦ rw n (acknowledge-Answered pid child)
    | inr (o, q) ↦ elim (Option-cases o) [
      | inl n ↦ rw (q, n) (acknowledge-Answered pid child)
      | inr (e, q') ↦ rw (q, q') (fail_open-Settles (some (sync_error e)), refl)
    ]
  ]

  -- Once there is a child, the parent closes its end exactly once, and kills the child exactly when it
  -- returns no pid. It returns neither a pid nor an error exactly when the child has reported,
  -- SyncFunc has passed, and the acknowledgement cannot be written.
  pub sync_with_child-Answered :
      (pid : ℕ)
      → (pid == 0) ≡ false
      → Answered
          (is_success w.first_read && (passes w.sync_result && not (w.ack_error == 0)))
          (sync_with_child w pid 0)
  unfolding sync_with_child
  sync_with_child-Answered pid child = elim (Bool-cases (is_success w.first_read)) [
    | inl b ↦ rw b (run_sync_func-Answered pid child)
    | inr b ↦ rw b (fail_open-Settles (some (pipe_error w.first_read.r1 w.first_read.stored)), refl)
  ]
