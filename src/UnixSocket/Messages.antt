-- ===== src/UnixSocket/Messages.antt =====
-- SendMsg, RecvMsg and parseMsg of pkg/unixsocket/socket_linux.go. The encodings of the control messages are
-- the syscall package's, and parameters. What the kernel delivers is an argument of recv_msg: with
-- SO_PASSCRED it adds the credentials of the sender where none are sent, and without it delivers none.
use go_sandbox.Common.{
  [], ◌∷◌, none, some, ℕ, List, Option, String, ◌++◌, if◌then◌else◌, not, ◌==◌, nat_eq,
}
use go_sandbox.Ptracer.Events.{OrError, value, error}

pub record Ucred : Type 0 where
  pub pid : ℕ
  pub uid : ℕ
  pub gid : ℕ

pub record Msg : Type 0 where
  pub fds : List ℕ
  pub cred : Option Ucred

-- syscall.SocketControlMessage: the header's level and type, and the bytes
pub record ControlMessage : Type 0 where
  pub level : ℕ
  pub kind : ℕ
  pub bytes : List ℕ

abbrev pub sol_socket : ℕ
sol_socket = 1

abbrev pub scm_rights : ℕ
scm_rights = 1

abbrev pub scm_credentials : ℕ
scm_credentials = 2

-- UnixRights, UnixCredentials, and their parsers
pub record ControlCodec : Type 0 where
  pub unix_rights : List ℕ → List ℕ
  pub unix_credentials : Ucred → List ℕ
  pub parse_control : List ℕ → OrError (List ControlMessage)
  pub parse_rights : ControlMessage → OrError (List ℕ)
  pub parse_credentials : ControlMessage → OrError Ucred

module _ (codec : ControlCodec) where
  abbrev pub rights_of : List ℕ → List ℕ
  rights_of [] = []
  rights_of (fd ∷ fds) = codec.unix_rights (fd ∷ fds)

  abbrev pub credentials_of : Option Ucred → List ℕ
  credentials_of none = []
  credentials_of (some c) = codec.unix_credentials c

  unfoldable pub oob_of : Option Msg → List ℕ
  oob_of none = []
  oob_of (some m) = rights_of m.fds ++ credentials_of m.cred

  -- `write` answers the error of WriteMsgUnix
  unfoldable pub send_msg : (List ℕ → List ℕ → Option String) → List ℕ → Option Msg → Option String
  unfolding oob_of
  send_msg write b m = write b (oob_of m)

  abbrev pub with_credentials : Msg → OrError Ucred → OrError Msg
  with_credentials msg (error e) = error e
  with_credentials msg (value c) = value (record msg { cred = some c })

  abbrev pub with_rights : Msg → OrError (List ℕ) → OrError Msg
  with_rights msg (error e) = error e
  with_rights msg (value fds) = value (record msg { fds = fds })

  -- one round of the loop of parseMsg
  unfoldable pub parse_one : Msg → ControlMessage → OrError Msg
  parse_one msg m =
      if not (m.level == sol_socket)
      then value msg
      else if m.kind == scm_credentials
      then with_credentials msg (codec.parse_credentials m)
      else if m.kind == scm_rights
      then with_rights msg (codec.parse_rights m)
      else value msg

  unfoldable pub parse_msg : Msg → List ControlMessage → OrError Msg
  unfolding parse_one
  parse_msg msg [] = value msg
  parse_msg msg (m ∷ ms) =
      let rest = λ (next : Msg). parse_msg next ms in
      elim (parse_one msg m) [ error e ↦ error e | value next ↦ rest next ]

  abbrev pub received : ℕ → OrError Msg → OrError (ℕ × Msg)
  received n (error e) = error e
  received n (value msg) = value (n, msg)

  abbrev pub parse_all : OrError (List ControlMessage) → OrError Msg
  parse_all (error e) = error e
  parse_all (value ms) = parse_msg (record { fds = []; cred = none }) ms

  -- from what ReadMsgUnix answers: the length of the text, and the control messages
  unfoldable pub recv_msg : OrError (ℕ × List ℕ) → OrError (ℕ × Msg)
  unfolding parse_msg
  recv_msg (error e) = error e
  recv_msg (value (n, oob)) = received n (parse_all (codec.parse_control oob))
