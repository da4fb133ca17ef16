-- ===== src/Container/Exchange/Balanced.antt =====
-- How an exchange ends, in every order of the steps.
use go_sandbox.Container.Exchange.{
  initial_state, State, Host, Server, Reaches, steps, Command, running, waiting, cmd_execve, idle,
  Waiter, replying, replied, returned, sending, await_pid, forking, deciding, reporting_pid, acking,
  await_ack, aborting, starting, await_abort, killing, await_done, wait_result, wait_done, unlocked,
  move, begin,
}
use go_sandbox.Container.Exchange.Codes.{table, server_eq, state_eq, host_eq, command_eq, reply_eq}
use go_sandbox.Common.{
  Bool, is_nil, ℕ, List, true, if◌then◌else◌, ◌∷◌, ◌==◌, ◌≡◌, ◌+◌, nat_eq, false, not, sym, length,
  ltb, [], refl, ◌&&◌, ◌||◌, arith, ◌<◌, ltb→lt,
}
use go_sandbox.Common.Explore.{
  Among, is_closed, each, each-Among, is_closed-Among, is_member, is_member-Among,
}

-- Execve has unlocked, and each of its goroutines is through.
abbrev pub is_over : Host → Bool
is_over returned = true
is_over (running unlocked true) = true
is_over _ = false

-- nothing is left for the next command to meet
abbrev pub is_clean : State → Bool
is_clean s = (s.server == idle) && (is_nil s.commands && is_nil s.replies)

abbrev agrees : Bool → Bool → Bool
agrees a b = if a then b else not b

closed : is_closed steps table ≡ true
unfolding steps
closed = refl

has_start : is_member initial_state table ≡ true
unfolding steps
has_start = refl

Reaches-Among : (s : State) → Reaches s → Among s table
Reaches-Among _ begin = is_member-Among initial_state table has_start
Reaches-Among _ (move s t' r m) = is_closed-Among steps table s t' closed (Reaches-Among s r) m

pub overs-clean : each (λ s. not (is_over s.host) || is_clean s) table ≡ true
unfolding steps
overs-clean = refl

stuck-over : each (λ s. agrees (is_nil (steps s)) (is_over s.host)) table ≡ true
unfolding steps
stuck-over = refl

-- At any state that an exchange reaches, whatever the choices: a step is possible unless the call
-- of Execve is over, and when it is over the server is idle and no command and no reply is left in
-- the queues.
pub exchange_balanced :
    (s : State)
    → Reaches s
    → (is_nil (steps s) ≡ is_over s.host) × (is_over s.host ≡ true → is_clean s ≡ true)
exchange_balanced s r =
    let m = Reaches-Among s r in
    let a = each-Among (λ t. not (is_over t.host) || is_clean t) table s overs-clean m in
    let b = each-Among (λ t. agrees (is_nil (steps t)) (is_over t.host)) table s stuck-over m in
    (same-agrees (is_nil (steps s)) (is_over s.host) b, λ h. ground arith)
  where
    same-agrees : (a b : Bool) → agrees a b ≡ true → a ≡ b
    same-agrees true b e = sym e
    same-agrees false true e = cc
    same-agrees false false e = refl

abbrev waiter_rank : Waiter → ℕ
waiter_rank wait_result = 2
waiter_rank wait_done = 1
waiter_rank unlocked = 0

abbrev host_rank : Host → ℕ
host_rank sending = 21
host_rank await_pid = 8
host_rank deciding = 7
host_rank acking = 6
host_rank aborting = 6
host_rank await_abort = 4
host_rank killing = 3
host_rank await_done = 1
host_rank returned = 0
host_rank (running w k) = waiter_rank w + (if k then 0 else 2)

abbrev unless : Bool → ℕ
unless k = if k then 0 else 1

abbrev server_rank : Server → ℕ
server_rank idle = 0
server_rank forking = 11
server_rank reporting_pid = 10
server_rank await_ack = 8
server_rank starting = 7
server_rank (waiting k) = 5 + unless k
server_rank (replying r k) = 4 + unless k
server_rank (replied k) = 2 + unless k

abbrev command_rank : Command → ℕ
command_rank cmd_execve = 12
command_rank _ = 1

abbrev total : List Command → ℕ
total [] = 0
total (c ∷ cs) = command_rank c + total cs

abbrev pub rank : State → ℕ
rank s = host_rank s.host + server_rank s.server + total s.commands + length s.replies

all-ranks : each (λ s. each (λ t. ltb (rank t) (rank s)) (steps s)) table ≡ true
unfolding steps
all-ranks = refl

pub Reaches-rank : (s t : State) → Reaches s → Among t (steps s) → rank t < rank s
Reaches-rank s t r m = ltb→lt (rank t) (rank s) (
    each-Among (λ u. ltb (rank u) (rank s)) (steps s) t
      (each-Among (λ v. each (λ u. ltb (rank u) (rank v)) (steps v)) table s all-ranks
        (Reaches-Among s r))
      m)
