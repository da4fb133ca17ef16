-- ===== src/Container/Commands.antt =====
-- The commands of one message and one reply: the host's side of container/host_cmd_linux.go, and the
-- handlers of container/container_cmd_linux.go with removeContents of utils.go. The file system of
-- the container is a parameter; the socket is taken to work.
pub mod Answers
pub mod Emptied
pub mod Held
pub mod Server
use go_sandbox.Common.{
  none, some, [], ◌∷◌, Option, List, String, Bool, codes, ℕ, if◌then◌else◌, length, ◌==◌, nat_eq,
}
use go_sandbox.FilePaths.{FilePath}
use go_sandbox.Ptracer.Events.{OrError, error, value}

pub record OpenCmd : Type 0 where
  pub path : FilePath
  pub flag : ℕ
  pub perm : ℕ

-- cmd, with the fields that its type uses; a nil pointer is `none`
pub data Cmd : Type 0 where
  cmd_ping cmd_reset : Cmd
  cmd_conf : Option Bool → Cmd
  cmd_open : List OpenCmd → Cmd
  cmd_delete : Option FilePath → Cmd

-- reply and the descriptors of its message
pub record Message : Type 0 where
  pub reply_error : Option String
  pub fds : List ℕ

abbrev pub ok_reply : List ℕ → Message
ok_reply fds = record { reply_error = none; fds = fds }

abbrev pub error_message : String → Message
error_message e = record { reply_error = some e; fds = [] }

-- The operations of the file system: an error or a value, and what they leave.
pub record Files (W : Type 0) : Type 0 where
  pub open_file : OpenCmd → W → OrError ℕ × W
  pub close_file : ℕ → W → W
  pub remove : FilePath → W → Option String × W
  -- os.Open of a directory, and Readdirnames
  pub open_dir : FilePath → W → OrError ℕ × W
  pub read_names : ℕ → W → OrError (List FilePath)
  pub remove_all : FilePath → FilePath → W → Option String × W

-- the container server: its file system and containerConfig.Cred
pub record Container (W : Type 0) : Type 0 where
  pub files : W
  pub cred : Bool

-- the descriptors paired with their paths
unfoldable pub named_files : List ℕ → List OpenCmd → List (ℕ × FilePath)
named_files (fd ∷ fds) (o ∷ os) = (fd, o.path) ∷ named_files fds os
named_files _ _ = []

-- recvAckReply
unfoldable pub recv_ack_reply : Message → Option String
recv_ack_reply m = m.reply_error

abbrev pub ack : Option String → Message
ack none = ok_reply []
ack (some e) = error_message e

abbrev pub open_reply : Option String → List ℕ → Message
open_reply none fds = ok_reply fds
open_reply (some e) fds = error_message e

-- what the host makes of the reply; os.NewFile of a descriptor that was received is not nil
unfoldable pub open_answer : List OpenCmd → Message → OrError (List (ℕ × FilePath))
unfolding named_files
open_answer os m = elim m.reply_error [
  | some e ↦ error e
  | none ↦
      if length m.fds == length os
      then value (named_files m.fds os)
      else error "open: unexpected number of fd"
]

module _ {W : Type 0} (fs : Files W) where
  -- the loop over the open commands: the error of the first that fails, and the descriptors so far
  unfoldable pub open_all : List OpenCmd → W → Option String × List ℕ × W
  open_all [] w = (none, [], w)
  open_all (o ∷ os) w =
      let (e, fds, w') = open_all os (fs.open_file o w).1 in
      elim (fs.open_file o w).0 [
        | error t ↦ (some t, [], (fs.open_file o w).1)
        | value fd ↦ (e, fd ∷ fds, w')
      ]

  -- the deferred calls of Close, the last first
  unfoldable pub close_all : List ℕ → W → W
  close_all [] w = w
  close_all (fd ∷ fds) w = fs.close_file fd (close_all fds w)

  unfoldable pub handle_ping : Container W → Message × Container W
  handle_ping c = (ok_reply [], c)

  unfoldable pub handle_conf : Option Bool → Container W → Message × Container W
  handle_conf none c = (ok_reply [], c)
  handle_conf (some cred) c = (ok_reply [], record c { cred = cred })

  unfoldable pub handle_open : List OpenCmd → Container W → Message × Container W
  unfolding open_all close_all
  handle_open [] c = (error_message "open: no open parameter received", c)
  handle_open (o ∷ os) c =
      let (e, fds, w) = open_all (o ∷ os) c.files in
      (open_reply e fds, record c { files = close_all fds w })

  unfoldable pub handle_delete : Option FilePath → Container W → Message × Container W
  handle_delete none c = (error_message "delete: no parameter provided", c)
  handle_delete (some p) c = let (e, w) = fs.remove p c.files in (ack e, record c { files = w })

  -- the loop of removeContents
  unfoldable pub remove_names : FilePath → List FilePath → W → Option String × W
  remove_names dir [] w = (none, w)
  remove_names dir (n ∷ ns) w =
      let rest = remove_names dir ns (fs.remove_all dir n w).1 in
      elim (fs.remove_all dir n w).0 [ some e ↦ (some e, (fs.remove_all dir n w).1) | none ↦ rest ]

  abbrev pub remove_read : FilePath → OrError (List FilePath) → W → Option String × W
  remove_read dir (error e) w = (some e, w)
  remove_read dir (value names) w = remove_names dir names w

  -- the deferred Close of the directory
  abbrev pub closing : ℕ → Option String × W → Option String × W
  closing fd (e, w) = (e, fs.close_file fd w)

  abbrev pub in_dir : FilePath → OrError ℕ × W → Option String × W
  in_dir dir (error e, w) = (some e, w)
  in_dir dir (value fd, w) = closing fd (remove_read dir (fs.read_names fd w) w)

  unfoldable pub remove_contents : FilePath → W → Option String × W
  unfolding remove_names
  remove_contents dir w = in_dir dir (fs.open_dir dir w)

  unfoldable pub handle_reset : Container W → Message × Container W
  unfolding remove_contents
  handle_reset c =
      let (e, w) = remove_contents (codes "/tmp") c.files in
      let (e', w') = remove_contents (codes "/w") w in
      elim e [
        | some t ↦ (error_message t, record c { files = w })
        | none ↦ (ack e', record c { files = w' })
      ]

  -- the cases of handleCmd but the execve, which Server adds
  unfoldable pub answer_cmd : Cmd → Container W → Message × Container W
  unfolding handle_ping handle_conf handle_open handle_delete handle_reset
  answer_cmd cmd_ping c = handle_ping c
  answer_cmd (cmd_conf conf) c = handle_conf conf c
  answer_cmd (cmd_open os) c = handle_open os c
  answer_cmd (cmd_delete p) c = handle_delete p c
  answer_cmd cmd_reset c = handle_reset c

  unfoldable pub host_delete : FilePath → Container W → Option String × Container W
  unfolding answer_cmd recv_ack_reply
  host_delete p c = let (m, c') = answer_cmd (cmd_delete (some p)) c in (recv_ack_reply m, c')

  unfoldable pub host_reset : Container W → Option String × Container W
  unfolding answer_cmd recv_ack_reply
  host_reset c = let (m, c') = answer_cmd cmd_reset c in (recv_ack_reply m, c')

  unfoldable pub host_conf : Bool → Container W → Option String × Container W
  unfolding answer_cmd recv_ack_reply
  host_conf cred c = let (m, c') = answer_cmd (cmd_conf (some cred)) c in (recv_ack_reply m, c')

  unfoldable pub host_open :
      List OpenCmd → Container W → OrError (List (ℕ × FilePath)) × Container W
  unfolding answer_cmd open_answer
  host_open os c = let (m, c') = answer_cmd (cmd_open os) c in (open_answer os m, c')
