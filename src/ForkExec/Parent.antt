-- ===== src/ForkExec/Parent.antt =====
-- The parent of pkg/forkexec/fork_linux.go: syncWithChild, which speaks with the child over the
-- socket pair until the child executes its program or has failed, and writeIDMaps of
-- userns_linux.go.
pub mod Protocol
use go_sandbox.ForkExec.Config.{Runner, IdMap, unshare_user}
use go_sandbox.Common.{
  none, some, List, ℕ, if◌then◌else◌, Option, not, Bool, ◌∷◌, ◌==◌, ◌++◌, ◌||◌, nat_eq, is_some, [],
  suc, ◌&&◌, zero, refl,
}
use go_sandbox.ForkExec.Calls.{Reply}
use go_sandbox.ForkExec.Child.{errno_size}

pub data MapFile : Type 0 where
  uid_map setgroups_file gid_map : MapFile

-- what is written to a file: the mapping of the own id, given mappings, or a word
pub data Content : Type 0 where
  own_uid own_gid deny allow : Content
  mappings : List IdMap → Content

pub data Act : Type 0 where
  write_file : MapFile → Content → Act
  -- writes of err2 and err1 to the child
  write_mapped : ℕ → Act
  write_ack : ℕ → Act
  read_child : Act
  sync_func : Act
  close_own close_other : Act
  kill_child : Act
  wait_child : Act

-- syscall.Errno, and the errors of SyncFunc
pub data Error : Type 0 where
  errno : ℕ → Error
  sync_error : ℕ → Error

-- The return values: the pid, or the error.
pub data Return : Type 0 where
  started : ℕ → Return
  failed : Error → Return

abbrev pub epipe : ℕ
epipe = 32

abbrev pub eintr : ℕ
eintr = 4

-- What the parent sees: the errors of the three files, the two reads, SyncFunc where there is one,
-- and how many of the waits are interrupted.
pub record World : Type 0 where
  pub file_error : MapFile → ℕ
  pub first_read : Reply
  pub second_read : Reply
  pub sync_result : Option (Option ℕ)
  pub interrupted : ℕ

unfoldable pub uid_content : Runner → Content
uid_content r = elim r.uid_mappings [ none ↦ own_uid | some m ↦ mappings m ]

unfoldable pub gid_content : Runner → Content
gid_content r = elim r.gid_mappings [ none ↦ own_gid | some m ↦ mappings m ]

unfoldable pub groups_content : Runner → Content
groups_content r =
    if not (is_some r.gid_mappings) || not r.gid_mappings_enable_setgroups then deny else allow

-- writeFile: its error, as 0 or an error number, ends the sequence
unfoldable pub write_files : World → List (MapFile × Content) → ℕ × List Act
write_files w [] = (0, [])
write_files w ((f, c) ∷ rest) =
    let (e, acts) = write_files w rest in
    if w.file_error f == 0
    then (e, write_file f c ∷ acts)
    else (w.file_error f, write_file f c ∷ [])

unfoldable pub write_id_maps : World → Runner → ℕ × List Act
write_id_maps w r =
    write_files w (
      (uid_map, uid_content r) ∷ (setgroups_file, groups_content r) ∷ (gid_map, gid_content r) ∷ [])

unfoldable pub handle_pipe_error : ℕ → ℕ → Error
handle_pipe_error r1 errno_read = if r1 == errno_size then errno errno_read else errno epipe

-- the waits are repeated while they are interrupted
unfoldable pub wait_loop : ℕ → List Act
wait_loop zero = wait_child ∷ []
wait_loop (suc n) = wait_child ∷ wait_loop n

unfoldable pub handle_child_failed : World → List Act
unfolding wait_loop
handle_child_failed w = kill_child ∷ wait_loop w.interrupted

-- fail: and failAfterClose:
unfoldable pub fail_after_close : World → Error → Return × List Act
fail_after_close w e = (failed e, handle_child_failed w)

unfoldable pub fail : World → Error → Return × List Act
unfolding fail_after_close
fail w e = (failed e, close_own ∷ (fail_after_close w e).1)

unfoldable pub before : List Act → Return × List Act → Return × List Act
before acts (r, more) = (r, acts ++ more)

unfoldable pub is_report : Reply → Bool
is_report reply = (reply.r1 == errno_size) && ((reply.stored == 0) && (reply.err == 0))

unfoldable pub after_ack : World → Runner → ℕ → Return × List Act
after_ack w r pid =
    if r.ptrace || r.stop_before_seccomp
    then (started pid, close_own ∷ [])
    else before (read_child ∷ close_own ∷ []) (
        if not (w.second_read.r1 == 0) || not (w.second_read.err == 0)
        then fail_after_close w (handle_pipe_error w.second_read.r1 w.second_read.stored)
        else (started pid, []))

unfoldable pub call_sync_func : World → Runner → ℕ → Return × List Act
unfolding after_ack before
call_sync_func w r pid = elim w.sync_result [
  | none ↦ before (write_ack w.first_read.err ∷ []) (after_ack w r pid)
  | some none ↦ before (sync_func ∷ write_ack w.first_read.err ∷ []) (after_ack w r pid)
  | some (some e) ↦ before (sync_func ∷ []) (fail w (sync_error e))
]

unfoldable pub map_ids : World → Runner → List Act
map_ids w r =
    if unshare_user r then (write_id_maps w r).1 ++ write_mapped (write_id_maps w r).0 ∷ [] else []

unfoldable pub sync_with_child : World → Runner → ℕ → ℕ → Return × List Act
unfolding map_ids call_sync_func
sync_with_child w r pid err1 =
    if not (err1 == 0)
    then (failed (errno err1), close_other ∷ close_own ∷ [])
    else before (close_other ∷ map_ids w r ++ read_child ∷ []) (
        if not (is_report w.first_read)
        then fail w (handle_pipe_error w.first_read.r1 w.first_read.stored)
        else call_sync_func w r pid)
