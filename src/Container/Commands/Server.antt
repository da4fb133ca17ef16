-- ===== src/Container/Commands/Server.antt =====
-- The loop of the container: serve and handleCmd of container/container_init_linux.go, with the
-- descriptors of an execve, of container/container_exec_linux.go. What goes on between host and
-- container while the program runs is in Container/Exchange, and the runner that it is given in Launch.
use go_sandbox.Container.Commands.{Files, Container, Cmd, Message, answer_cmd, error_message}
use go_sandbox.Container.Commands.Held.{HeldLaws, answer_cmd-held, lists, added_and_taken}
use go_sandbox.Common.{
  [], ◌∷◌, none, some, ℕ, Bool, true, false, ◌≡◌, List, Option, String, ◌∙◌, refl, not, ◌&&◌, ◌||◌,
  arith, ◌++◌,
}
use go_sandbox.Ptracer.Events.{OrError, value, error}
use go_sandbox.Launch.{exec_files}
use go_sandbox.Common.Int.{ℤ}

-- A command as it is received: with one reply, an execve with its parameter, where it is not nil,
-- and the number of the descriptors that come with it, or of an unknown type.
pub data Request : Type 0 where
  one_reply : Cmd → Request
  cmd_execve : Option Bool → ℕ → Request
  unknown_cmd : String → Request

-- The kernel's answer to a message with descriptors, CloseOnExec, and the exchange of an execve: from
-- the executable and the files to the replies.
pub record Execution (W : Type 0) : Type 0 where
  pub receive : ℕ → W → List ℕ × W
  pub close_on_exec : ℕ → W → W
  pub exchange : ℕ → List ℤ → W → List Message × W

-- What a loop that still waits, or that has ended with an error, has replied.
pub record Served (W : Type 0) : Type 0 where
  pub replies : List Message
  pub container : Container W
  pub ended : Option String

module _ {W : Type 0} (fs : Files W) (ex : Execution W) where
  unfoldable pub close_on_exec_fds : List ℕ → W → W
  close_on_exec_fds [] w = w
  close_on_exec_fds (fd ∷ fds) w = close_on_exec_fds fds (ex.close_on_exec fd w)

  unfoldable pub close_fds : List ℕ → W → W
  close_fds [] w = w
  close_fds (fd ∷ fds) w = close_fds fds (fs.close_file fd w)

  abbrev pub released :
      List ℕ → Container W → List Message × W → OrError (List Message) × Container W
  released fds c (ms, w) = (value ms, record c { files = close_fds fds w })

  abbrev pub with_files :
      List ℕ → Container W → Option (ℕ × List ℤ) → W → OrError (List Message) × Container W
  with_files fds c none w =
      (error "execve: expected fexecve fd", record c { files = close_fds fds w })
  with_files fds c (some (exec, files)) w = released fds c (ex.exchange exec files w)

  -- A nil parameter is answered before the release of the files is deferred.
  unfoldable pub handle_execve :
      Option Bool → List ℕ → Container W → OrError (List Message) × Container W
  unfolding close_on_exec_fds close_fds
  handle_execve none fds c = (value (error_message "execve: no parameter provided" ∷ []), c)
  handle_execve (some fd_exec) fds c =
      with_files fds c (exec_files fd_exec fds) (close_on_exec_fds fds c.files)

  abbrev pub one_message : Message × Container W → OrError (List Message) × Container W
  one_message (m, c) = (value (m ∷ []), c)

  abbrev pub behind_receive :
      Option Bool → Container W → List ℕ × W → OrError (List Message) × Container W
  behind_receive cmd c (fds, w) = handle_execve cmd fds (record c { files = w })

  unfoldable pub handle_cmd : Request → Container W → OrError (List Message) × Container W
  unfolding handle_execve
  handle_cmd (one_reply m) c = one_message (answer_cmd fs m c)
  handle_cmd (cmd_execve cmd sent) c = behind_receive cmd c (ex.receive sent c.files)
  handle_cmd (unknown_cmd name) c = (error "unknown command", c)

  abbrev pub go_on : OrError (List Message) × Container W → Served W → Served W
  go_on (error e, c) rest = record { replies = []; container = c; ended = some e }
  go_on (value ms, c) rest = record rest { replies = ms ++ rest.replies }

  unfoldable pub serve : List (OrError Request) → Container W → Served W
  unfolding handle_cmd
  serve [] c = record { replies = []; container = c; ended = none }
  serve (error e ∷ rest) c = record { replies = []; container = c; ended = some e }
  serve (value m ∷ rest) c = go_on (handle_cmd m c) (serve rest (handle_cmd m c).1)

-- The descriptors that come with a message are new and open; setting a flag and the exchange of an
-- execve, whose descriptors the child of the fork and its parent close, leave all as they are.
pub record ExecutionLaws {W : Type 0} (ex : Execution W) (held : ℕ → W → Bool) : Type 0 where
  pub received :
      (n : ℕ) (w : W) (x : ℕ)
      → (held x (ex.receive n w).1 ≡ (lists (ex.receive n w).0 x || held x w))
        × (lists (ex.receive n w).0 x ≡ true → held x w ≡ false)
  pub flagged : (fd : ℕ) (w : W) (x : ℕ) → held x (ex.close_on_exec fd w) ≡ held x w
  pub exchanged :
      (exec : ℕ) (files : List ℤ) (w : W) (x : ℕ) → held x (ex.exchange exec files w).1 ≡ held x w

module _ {W : Type 0} (fs : Files W) (ex : Execution W) (held : ℕ → W → Bool)
    (law : HeldLaws fs held) (laws : ExecutionLaws ex held) where
  -- every execve has its parameter
  abbrev pub has_parameters : List (OrError Request) → Bool
  has_parameters [] = true
  has_parameters (value (cmd_execve none sent) ∷ rest) = false
  has_parameters (_ ∷ rest) = has_parameters rest

  close_on_exec_fds-held :
      (fds : List ℕ) (w : W) (x : ℕ) → held x (close_on_exec_fds fs ex fds w) ≡ held x w
  unfolding close_on_exec_fds
  close_on_exec_fds-held [] w x = refl
  close_on_exec_fds-held (fd ∷ fds) w x =
      close_on_exec_fds-held fds (ex.close_on_exec fd w) x ∙ laws.flagged fd w x

  close_fds-held :
      (fds : List ℕ) (w : W) (x : ℕ)
      → held x (close_fds fs ex fds w) ≡ (not (lists fds x) && held x w)
  unfolding close_fds
  close_fds-held [] w x = refl
  close_fds-held (fd ∷ fds) w x =
      close_fds-held fds (fs.close_file fd w) x ∙ rw (law.closed fd w x) (ground arith)

  with_files-held :
      (fds : List ℕ) (c : Container W) (o : Option (ℕ × List ℤ)) (w : W) (x : ℕ)
      → held x (with_files fs ex fds c o w).1.files ≡ (not (lists fds x) && held x w)
  with_files-held fds c none w x = close_fds-held fds w x
  with_files-held fds c (some (exec, files)) w x =
      close_fds-held fds (ex.exchange exec files w).1 x ∙ rw (laws.exchanged exec files w x) refl

  handle_execve-held :
      (fd_exec : Bool) (fds : List ℕ) (c : Container W) (x : ℕ)
      → held x (handle_execve fs ex (some fd_exec) fds c).1.files
        ≡ (not (lists fds x) && held x c.files)
  unfolding handle_execve
  handle_execve-held fd_exec fds c x =
      with_files-held fds c (exec_files fd_exec fds) (close_on_exec_fds fs ex fds c.files) x
      ∙ rw (close_on_exec_fds-held fds c.files x) refl

  go_on-held :
      (r : OrError (List Message) × Container W) (rest : Served W) (x : ℕ)
      → held x rest.container.files ≡ held x r.1.files
      → held x (go_on fs ex r rest).container.files ≡ held x r.1.files
  go_on-held (error e, c) rest x h = refl
  go_on-held (value ms, c) rest x h = h

  execve-held :
      (fd_exec : Bool) (sent : ℕ) (c : Container W) (x : ℕ)
      → held x (handle_cmd fs ex (cmd_execve (some fd_exec) sent) c).1.files ≡ held x c.files
  unfolding handle_cmd
  execve-held fd_exec sent c x =
      let r = ex.receive sent c.files in
      let (now, fresh) = laws.received sent c.files x in
      added_and_taken (lists r.0 x) (held x c.files) (held x r.1) _ now fresh
        (handle_execve-held fd_exec r.0 (record c { files = r.1 }) x)

  -- However many commands a container serves, and however they fail, it ends with exactly the
  -- descriptors open with which it began, where every execve has its parameter: the files that are
  -- opened for the host, the directories that are emptied and the files that come with an execve are
  -- closed again, and no other.
  pub serve-held :
      (ms : List (OrError Request)) (c : Container W) (x : ℕ)
      → has_parameters ms ≡ true
      → held x (serve fs ex ms c).container.files ≡ held x c.files
  unfolding serve handle_cmd
  serve-held [] c x h = refl
  serve-held (error e ∷ rest) c x h = refl
  serve-held (value (unknown_cmd name) ∷ rest) c x h = refl
  serve-held (value (one_reply m) ∷ rest) c x h =
      serve-held rest (answer_cmd fs m c).1 x h ∙ answer_cmd-held fs held law m c x
  serve-held (value (cmd_execve none sent) ∷ rest) c x h = absurd (ground arith)
  serve-held (value (cmd_execve (some fd_exec) sent) ∷ rest) c x h =
      let m = cmd_execve (some fd_exec) sent in
      let r = handle_cmd fs ex m c in
      go_on-held r (serve fs ex rest r.1) x (serve-held rest r.1 x h) ∙ execve-held fd_exec sent c x
