-- ===== src/UnixSocket.antt =====
-- pkg/unixsocket/socket_linux.go: sockets over descriptors, and messages with rights and credentials.
pub mod Pairs
pub mod Messages
use go_sandbox.Common.{
  [], ◌∷◌, none, some, true, false, Bool, ℕ, Option, String, if◌then◌else◌, suc,
}
use go_sandbox.Descriptors.{HostProcess, deferred, close_fd, open_fd}
use go_sandbox.Ptracer.Events.{OrError, error, value}

-- What the calls of NewSocket answer: whether os.NewFile takes the number, the error of
-- net.FileConn, and whether the connection is a unix one.
pub record SocketAnswers : Type 0 where
  pub valid : Bool
  pub conn_error : Option String
  pub unix_conn : Bool

-- net.FileConn and the test of its result: a new descriptor, closed again unless it is a unix connection
unfoldable pub file_conn : SocketAnswers → HostProcess → OrError ℕ × HostProcess
file_conn a h = elim a.conn_error [
  | some e ↦ (error e, h)
  | none ↦
      if a.unix_conn
      then (value h.next_fd, open_fd h)
      else (error "not a valid unix socket connection", close_fd h.next_fd (open_fd h))
]

unfoldable pub new_socket : SocketAnswers → ℕ → HostProcess → OrError ℕ × HostProcess
unfolding file_conn
new_socket a fd h = if a.valid then deferred fd (file_conn a h) else (error "not a valid fd", h)

pub record PairAnswers : Type 0 where
  pub pair_error : Option String
  pub sender : SocketAnswers
  pub receiver : SocketAnswers

abbrev pub with_receiver : ℕ → ℕ → OrError ℕ × HostProcess → OrError (ℕ × ℕ) × HostProcess
with_receiver ins fd (error e, h) = (error e, close_fd fd (close_fd ins h))
with_receiver ins fd (value outs, h) = (value (ins, outs), h)

abbrev pub with_sender :
    SocketAnswers → ℕ → ℕ → OrError ℕ × HostProcess → OrError (ℕ × ℕ) × HostProcess
with_sender receiver fd₀ fd₁ (error e, h) = (error e, close_fd fd₁ (close_fd fd₀ h))
with_sender receiver fd₀ fd₁ (value ins, h) = with_receiver ins fd₁ (new_socket receiver fd₁ h)

unfoldable pub new_socket_pair : PairAnswers → HostProcess → OrError (ℕ × ℕ) × HostProcess
unfolding new_socket
new_socket_pair a h = elim a.pair_error [
  | some e ↦ (error e, h)
  | none ↦
      let fd₀ = h.next_fd in
      let fd₁ = suc h.next_fd in
      with_sender a.receiver fd₀ fd₁ (new_socket a.sender fd₀ (open_fd (open_fd h)))
]
