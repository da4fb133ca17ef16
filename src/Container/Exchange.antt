-- ===== src/Container/Exchange.antt =====
-- The exchange of one execve, between Execve of container/host_exec_linux.go and handleExecve of
-- container/container_exec_linux.go: two parties with their goroutines and a queue each way. What
-- SyncFunc, the kernel, the context and the scheduler decide is a choice between steps. The socket
-- is taken to work.
pub mod Codes
pub mod Balanced
pub mod Finished
use go_sandbox.Common.{Bool, List, [], ◌++◌, ◌∷◌, true, false, if◌then◌else◌, map}
use go_sandbox.Common.Explore.{Among}

pub data Command : Type 0 where
  cmd_execve cmd_ok cmd_kill : Command

-- the pid for SyncFunc, an error, the result of the program, and the empty reply at the end
pub data Reply : Type 0 where
  pid_reply error_reply exec_reply done_reply : Reply

-- The goroutine that waits: for the result, for the done signal, and behind the unlock.
pub data Waiter : Type 0 where
  wait_result wait_done unlocked : Waiter

-- Where Execve stands: the sends and receives in their order. `running` has the two goroutines, with
-- whether the second has sent its kill.
pub data Host : Type 0 where
  sending await_pid deciding acking : Host
  -- the two execveSyncKill, each a send and a receive
  aborting await_abort killing await_done : Host
  running : Waiter → Bool → Host
  -- behind the unlock of an early return
  returned : Host

-- Where handleExecve stands; the Boolean is whether the goroutine that receives the kill has had it.
pub data Server : Type 0 where
  idle forking reporting_pid await_ack starting : Server
  waiting : Bool → Server
  -- the reply of the program: whether it is its result
  replying : Bool → Bool → Server
  replied : Bool → Server

pub record State : Type 0 where
  pub host : Host
  pub server : Server
  pub commands : List Command
  pub replies : List Reply

abbrev pub initial_state : State
initial_state = record { host = sending; server = idle; commands = []; replies = [] }

-- a step of the host that receives
abbrev pub receive : (Reply → Host) → State → List State
receive next s = elim s.replies [
  | [] ↦ []
  | r ∷ rs ↦ (record s { host = next r; replies = rs }) ∷ []
]

abbrev pub send : Command → Host → State → State
send c next s = record s { host = next; commands = s.commands ++ c ∷ [] }

-- reply.Error != nil || msg.Cred == nil
abbrev pub on_pid : Reply → Host
on_pid pid_reply = deciding
on_pid _ = killing

abbrev pub waiter_steps : Waiter → Bool → State → List State
waiter_steps wait_result k s = receive (λ _. running wait_done k) s
waiter_steps wait_done k s = receive (λ _. running unlocked k) s
waiter_steps unlocked k s = []

-- The kill is sent when the context is done, or when the result has come.
abbrev pub killer_steps : Waiter → Bool → State → List State
killer_steps w true s = []
killer_steps w false s = send cmd_kill (running w true) s ∷ []

abbrev pub host_steps : Host → State → List State
host_steps sending s = send cmd_execve await_pid s ∷ []
host_steps await_pid s = receive on_pid s
host_steps deciding s = (record s { host = acking }) ∷ (record s { host = aborting }) ∷ []
host_steps acking s = send cmd_ok (running wait_result false) s ∷ []
host_steps aborting s = send cmd_kill await_abort s ∷ []
host_steps await_abort s = receive (λ _. killing) s
host_steps killing s = send cmd_kill await_done s ∷ []
host_steps await_done s = receive (λ _. returned) s
host_steps (running w k) s = waiter_steps w k s ++ killer_steps w k s
host_steps returned s = []

abbrev pub serve : (Command → List Server) → State → List State
serve next s = elim s.commands [
  | [] ↦ []
  | c ∷ cs ↦ map (λ v. record s { server = v; commands = cs }) (next c)
]

abbrev pub reply : Reply → Server → State → State
reply r next s = record s { server = next; replies = s.replies ++ r ∷ [] }

-- handleCmd; a command that is not for an idle server ends it
abbrev pub on_command : Command → List Server
on_command cmd_execve = forking ∷ []
on_command _ = []

-- syncFunc: cmd.Cmd == cmdKill
abbrev pub on_ack : Command → List Server
on_ack cmd_kill = replying false false ∷ []
on_ack _ = starting ∷ []

-- the goroutine that receives the kill, whatever the command is
abbrev pub killed_steps : (Bool → Server) → Bool → State → List State
killed_steps next false s = serve (λ _. next true ∷ []) s
killed_steps next true s = []

-- <-killDone
abbrev pub finish_steps : Bool → State → List State
finish_steps true s = reply done_reply idle s ∷ []
finish_steps false s = []

abbrev pub outcome : Bool → Reply
outcome result = if result then exec_reply else error_reply

abbrev pub server_steps : Server → State → List State
server_steps idle s = serve on_command s
server_steps forking s =
    (record s { server = reporting_pid }) ∷ (record s { server = replying false false }) ∷ []
server_steps reporting_pid s = reply pid_reply await_ack s ∷ []
server_steps await_ack s = serve on_ack s
server_steps starting s =
    (record s { server = waiting false }) ∷ (record s { server = replying false false }) ∷ []
server_steps (waiting k) s =
    killed_steps waiting k s
    ++ (record s { server = replying true k }) ∷ (record s { server = replying false k }) ∷ []
server_steps (replying result k) s =
    killed_steps (replying result) k s ++ reply (outcome result) (replied k) s ∷ []
server_steps (replied k) s = killed_steps replied k s ++ finish_steps k s

-- what the two parties may do next
unfoldable pub steps : State → List State
steps s = host_steps s.host s ++ server_steps s.server s

-- The states that an exchange reaches.
pub data Reaches : State → Type 0 where
  begin : Reaches initial_state
  move : (s t : State) → Reaches s → Among t (steps s) → Reaches t
