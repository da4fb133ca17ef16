-- ===== src/Darwin/Parent.antt =====
-- The parent of pkg/forkexec/fork_darwin.go: syncWithChild and what follows a failure.
pub mod Answers
use go_sandbox.Common.{
  zero, suc, [], ◌∷◌, none, some, true, false, ℕ, Option, List, String, Bool, if◌then◌else◌, ◌++◌,
  not, ◌==◌, nat_eq, ◌||◌, ◌&&◌,
}
use go_sandbox.ForkExec.Calls.{Reply}
use go_sandbox.ForkExec.Child.{errno_size}
use go_sandbox.ForkExec.Parent.{epipe}

pub data Act : Type 0 where
  close_own close_other read_child sync_func kill_child wait_child : Act
  write_ack : Act

-- The error numbers of the child and the errors of SyncFunc.
pub data Error : Type 0 where
  errno : ℕ → Error
  sync_error : String → Error

-- What the parent sees: the reads, SyncFunc where there is one, the error of the write of the
-- acknowledgement, and how many waits are interrupted.
pub record World : Type 0 where
  pub first_read : Reply
  pub sync_result : Option (Option String)
  pub ack_error : ℕ
  pub second_read : Reply
  pub interrupted : ℕ

-- The pid and the error, which may be nil.
pub record Return : Type 0 where
  pub pid : ℕ
  pub err : Option Error

abbrev pub pipe_error : ℕ → ℕ → Error
pipe_error r1 e = if r1 == errno_size then errno e else errno epipe

abbrev pub waits : ℕ → List Act
waits zero = wait_child ∷ []
waits (suc n) = wait_child ∷ waits n

unfoldable pub is_success : Reply → Bool
is_success r = (r.r1 == errno_size) && ((r.stored == 0) && (r.err == 0))

module _ (w : World) where
  -- failAfterClose: kills the child, and returns the error of the variable err
  unfoldable pub fail_closed : Option Error → Return × List Act
  fail_closed err = (record { pid = 0; err = err }, kill_child ∷ waits w.interrupted)

  unfoldable pub fail_open : Option Error → Return × List Act
  unfolding fail_closed
  fail_open err = let (r, acts) = fail_closed err in (r, close_own ∷ acts)

  abbrev pub after : List Act → Return × List Act → Return × List Act
  after acts (r, more) = (r, acts ++ more)

  unfoldable pub second_part : ℕ → Return × List Act
  unfolding fail_closed
  second_part pid = after (read_child ∷ close_own ∷ []) (
      if not (w.second_read.r1 == 0) || not (w.second_read.err == 0)
      then fail_closed (some (pipe_error w.second_read.r1 w.second_read.stored))
      else (record { pid = pid; err = none }, []))

  -- The write of the acknowledgement; on its error `err` is still nil.
  unfoldable pub acknowledge : ℕ → Return × List Act
  unfolding second_part fail_open
  acknowledge pid =
      after (write_ack ∷ []) (if not (w.ack_error == 0) then fail_open none else second_part pid)

  unfoldable pub run_sync_func : ℕ → Return × List Act
  unfolding acknowledge fail_open
  run_sync_func pid = elim w.sync_result [
    | none ↦ acknowledge pid
    | some none ↦ after (sync_func ∷ []) (acknowledge pid)
    | some (some e) ↦ after (sync_func ∷ []) (fail_open (some (sync_error e)))
  ]

  unfoldable pub sync_with_child : ℕ → ℕ → Return × List Act
  unfolding run_sync_func is_success fail_open
  sync_with_child pid err1 =
      if not (err1 == 0)
      then (record { pid = 0; err = some (errno err1) }, close_other ∷ close_own ∷ [])
      else after (close_other ∷ read_child ∷ []) (
          if is_success w.first_read
          then run_sync_func pid
          else fail_open (some (pipe_error w.first_read.r1 w.first_read.stored)))
