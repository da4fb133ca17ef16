-- ===== src/Container/Exchange/Codes.antt =====
-- Equality of the states of an exchange, and the list of those that a search finds.
use go_sandbox.Container.Exchange.{
  initial_state, State, Host, Server, Command, Reply, steps, cmd_execve, pid_reply, sending, idle,
  running, waiting, cmd_ok, error_reply, await_pid, cmd_kill, exec_reply, deciding, forking,
  done_reply, acking, reporting_pid, aborting, await_ack, await_abort, starting, killing,
  await_done, replying, returned, replied, wait_result, wait_done, unlocked,
}
use go_sandbox.Common.Explore.{pick, coded_eq, search_from, list_same_iff, list_same, list_eq}
use go_sandbox.Common.{
  ℕ, Eq, List, Bool, ◌≡◌, true, ◌==◌, nat_eq, ◌∷◌, ◌&&◌, ◌↔◌, arith, [], refl, false,
}

abbrev command_code : Command → ℕ
command_code cmd_execve = 0
command_code cmd_ok = 1
command_code cmd_kill = 2

abbrev command_of : ℕ → Command
command_of = pick cmd_execve (cmd_execve ∷ cmd_ok ∷ cmd_kill ∷ [])

pub command_back : (c : Command) → command_of (command_code c) ≡ c
command_back cmd_execve = refl
command_back cmd_ok = refl
command_back cmd_kill = refl

instance abbrev pub command_eq : Eq Command
command_eq = coded_eq command_code command_of command_back

abbrev reply_code : Reply → ℕ
reply_code pid_reply = 0
reply_code error_reply = 1
reply_code exec_reply = 2
reply_code done_reply = 3

abbrev reply_of : ℕ → Reply
reply_of = pick pid_reply (pid_reply ∷ error_reply ∷ exec_reply ∷ done_reply ∷ [])

pub reply_back : (r : Reply) → reply_of (reply_code r) ≡ r
reply_back pid_reply = refl
reply_back error_reply = refl
reply_back exec_reply = refl
reply_back done_reply = refl

instance abbrev pub reply_eq : Eq Reply
reply_eq = coded_eq reply_code reply_of reply_back

abbrev host_code : Host → ℕ
host_code sending = 0
host_code await_pid = 1
host_code deciding = 2
host_code acking = 3
host_code aborting = 4
host_code await_abort = 5
host_code killing = 6
host_code await_done = 7
host_code returned = 8
host_code (running wait_result false) = 9
host_code (running wait_result true) = 10
host_code (running wait_done false) = 11
host_code (running wait_done true) = 12
host_code (running unlocked false) = 13
host_code (running unlocked true) = 14

abbrev hosts : List Host
hosts =
    sending
    ∷ await_pid
    ∷ deciding
    ∷ acking
    ∷ aborting
    ∷ await_abort
    ∷ killing
    ∷ await_done
    ∷ returned
    ∷ running wait_result false
    ∷ running wait_result true
    ∷ running wait_done false
    ∷ running wait_done true
    ∷ running unlocked false
    ∷ running unlocked true
    ∷ []

pub host_back : (h : Host) → pick sending hosts (host_code h) ≡ h
host_back sending = refl
host_back await_pid = refl
host_back deciding = refl
host_back acking = refl
host_back aborting = refl
host_back await_abort = refl
host_back killing = refl
host_back await_done = refl
host_back returned = refl
host_back (running wait_result false) = refl
host_back (running wait_result true) = refl
host_back (running wait_done false) = refl
host_back (running wait_done true) = refl
host_back (running unlocked false) = refl
host_back (running unlocked true) = refl

instance abbrev pub host_eq : Eq Host
host_eq = coded_eq host_code (pick sending hosts) host_back

abbrev server_code : Server → ℕ
server_code idle = 0
server_code forking = 1
server_code reporting_pid = 2
server_code await_ack = 3
server_code starting = 4
server_code (waiting false) = 5
server_code (waiting true) = 6
server_code (replying false false) = 7
server_code (replying false true) = 8
server_code (replying true false) = 9
server_code (replying true true) = 10
server_code (replied false) = 11
server_code (replied true) = 12

abbrev servers : List Server
servers =
    idle
    ∷ forking
    ∷ reporting_pid
    ∷ await_ack
    ∷ starting
    ∷ waiting false
    ∷ waiting true
    ∷ replying false false
    ∷ replying false true
    ∷ replying true false
    ∷ replying true true
    ∷ replied false
    ∷ replied true
    ∷ []

pub server_back : (v : Server) → pick idle servers (server_code v) ≡ v
server_back idle = refl
server_back forking = refl
server_back reporting_pid = refl
server_back await_ack = refl
server_back starting = refl
server_back (waiting false) = refl
server_back (waiting true) = refl
server_back (replying false false) = refl
server_back (replying false true) = refl
server_back (replying true false) = refl
server_back (replying true true) = refl
server_back (replied false) = refl
server_back (replied true) = refl

instance abbrev pub server_eq : Eq Server
server_eq = coded_eq server_code (pick idle servers) server_back

abbrev state_same : State → State → Bool
state_same s t =
    (s.host == t.host)
    && ((s.server == t.server)
        && (list_same s.commands t.commands && list_same s.replies t.replies))

pub state_same_iff : (s t : State) → (state_same s t ≡ true) ↔ (s ≡ t)
state_same_iff s t = ground (
  arith,
  host_eq.same_iff s.host t.host,
  server_eq.same_iff s.server t.server,
  list_same_iff s.commands t.commands,
  list_same_iff s.replies t.replies,
)

instance abbrev pub state_eq : Eq State
state_eq = record { same = state_same; same_iff = state_same_iff }

abbrev pub table : List State
unfolding steps
table = search_from steps 60 (initial_state ∷ []) (initial_state ∷ [])
