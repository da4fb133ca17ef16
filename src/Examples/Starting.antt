-- ===== src/Examples/Starting.antt =====
-- Starts of a child that meet the conditions of the theorems on pkg/forkexec.
use go_sandbox.ForkExec.Parent.{
  World, sync_with_child, before, fail, fail_after_close, handle_child_failed, is_report,
}
use go_sandbox.ForkExec.Child.{
  lock_down, Args, fork_and_exec_in_child, exec_retry, lock_down, etxtbsy,
}
use go_sandbox.ForkExec.Config.{Runner, clone_newuser, clone_newns}
use go_sandbox.Common.{
  none, some, [], ◌∷◌, true, List, false, ◌≡◌, ◌+◌, refl, ℕ, ◌++◌, if◌then◌else◌, arith, ◌==◌,
  nat_eq, ltb, length, codes, ◌<◌, suc, zero,
}
use go_sandbox.Common.Int.{ℤ, pos, negsuc}
use go_sandbox.ForkExec.Calls.{
  Oracle, Call, ◌>>=◌, call, call_anyway, done, goes, Outcome, dup3, clear_cloexec, close,
  execveat_path,
}
use go_sandbox.ForkExec.Fds.{
  assign_fds, move_pipe, move_exec_file, pass_one, max_fd, pass_two, prepare_fds, skip_taken, Slots,
}
use go_sandbox.ForkExec.Fds.Placement.{Descriptors}
use go_sandbox.ForkExec.Fds.Assigned.{Assigned, first_slots, assign_fds-Assigned}
use go_sandbox.ForkExec.Parent.Protocol.{tally, sync_with_child-tally}
use go_sandbox.ForkExec.Retried.{exec_retry-tries, after_tries}
use go_sandbox.Launch.{Request, launched, by_unshare}
use go_sandbox.ForkExec.IdMappings.{content_text, read_entries, itoa, itoa_from}
use go_sandbox.ForkExec.IdMappings.RoundTrip.{content_text-asked_maps, asked_maps}
use go_sandbox.ForkExec.Parent.{uid_content, gid_content}
use go_sandbox.Launch.Confined.{Confined}

-- a kernel that grants every call, and a parent that answers each read
abbrev granting : Oracle
granting log c = record { r1 = 8; err = 0; stored = 0 }

abbrev traced_runner : Runner
traced_runner = record {
  exec_file = 9;
  rlimits = (record { res = 0; cur = 1; max = 2 }) ∷ [];
  files = pos 1 ∷ pos 0 ∷ negsuc 0 ∷ [];
  seccomp = true;
  ptrace = true;
  no_new_privs = false;
  stop_before_seccomp = false;
  clone_flags = clone_newuser + clone_newns;
  mounts = [];
  drop_caps = true;
  uid_mappings = none;
  gid_mappings = none;
  gid_mappings_enable_setgroups = false;
  credential = none;
  unshare_cgroup_after_sync = true;
}

abbrev some_args : Args
some_args = record {
  parent_end = 3;
  pipe = 4;
  workdir = some (47 ∷ []);
  hostname = none;
  domainname = none;
  pivot_root_dir = some (47 ∷ 109 ∷ []);
}

abbrev traced_calls : List Call
traced_calls = (fork_and_exec_in_child granting 2 traced_runner some_args []).1

-- the files fail to be written, so the child is told and sends the error back
abbrev bad_world : World
bad_world = record {
  file_error = λ _. 1;
  first_read = record { r1 = 8; err = 0; stored = 1 };
  second_read = record { r1 = 0; err = 0; stored = 0 };
  sync_result = some none;
  interrupted = 2;
}

sync_with_child-tally_example : tally (sync_with_child bad_world traced_runner 7 0).1 ≡ (1, 1, 1, 0)
unfolding sync_with_child before fail fail_after_close handle_child_failed is_report
sync_with_child-tally_example = sync_with_child-tally bad_world traced_runner 7 0

-- the table of descriptors, each at first with the file of its own number
abbrev apply_call : Call → (ℕ → ℕ) → ℕ → ℕ
apply_call (dup3 a b _) t x = if x == b then t a else t x
apply_call _ t x = t x

abbrev table_after : List Call → (ℕ → ℕ) → ℕ → ℕ
table_after [] t = t
table_after (c ∷ cs) t = table_after cs (apply_call c t)

table_after-append :
    (a : List Call) (c : Call) (t : ℕ → ℕ) (x : ℕ)
    → table_after (a ++ c ∷ []) t x ≡ apply_call c (table_after a t) x
table_after-append [] c t x = refl
table_after-append (d ∷ a) c t x = table_after-append a c (apply_call d t) x

abbrev shows : List Call → ℕ → ℕ
shows log = table_after log (λ x. x)

granting-Descriptors : Descriptors granting shows
granting-Descriptors = record {
  duplicate = λ log a b cloexec x ok. table_after-append log (dup3 a b cloexec) (λ y. y) x;
  flag = λ log fd x. table_after-append log (clear_cloexec fd) (λ y. y) x;
  shut = λ log fd x ne. table_after-append log (close fd) (λ y. y) x;
}

abbrev swapped_files : List ℤ
swapped_files = pos 1 ∷ pos 0 ∷ negsuc 0 ∷ []

abbrev assigned : Outcome Slots × List Call
assigned = assign_fds granting swapped_files 5 9 []

assign_fds-Assigned_example :
    Assigned granting shows granting-Descriptors swapped_files
      (first_slots swapped_files 5 9)
      []
      (record { pipe = 5; exec_file = 9; nextfd = 5 })
      assigned.1
unfolding assign_fds move_pipe move_exec_file pass_one pass_two max_fd prepare_fds skip_taken ◌>>=◌
    call done call_anyway
assign_fds-Assigned_example =
    assign_fds-Assigned granting shows granting-Descriptors swapped_files 5 9
      (record { pipe = 5; exec_file = 9; nextfd = 5 }) [] assigned.1
      (λ _. (λ h. omega arith, λ h h'. omega arith)) refl

-- the executable is busy for the first two tries
abbrev busy_twice : Oracle
busy_twice log c = record { r1 = 0; err = if ltb (length log) 2 then 26 else 0; stored = 0 }

busy_at_first :
    (k : ℕ) → k < 2 → (busy_twice (after_tries execveat_path k []) execveat_path).err ≡ etxtbsy
busy_at_first zero l = refl
busy_at_first (suc zero) l = refl
busy_at_first (suc (suc k)) l = absurd (omega arith)

exec_retry-tries_example :
    exec_retry busy_twice 9 execveat_path []
    ≡ (goes tt, execveat_path ∷ execveat_path ∷ execveat_path ∷ [])
exec_retry-tries_example =
    exec_retry-tries busy_twice execveat_path 9 2 [] busy_at_first (λ e. omega arith) (omega arith)

abbrev small_request : Request
small_request = record {
  exec_file = 0;
  rlimits = (record { res = 0; cur = 1; max = 2 }) ∷ [];
  files = pos 0 ∷ [];
  mounts = [];
}

abbrev launched_calls : List Call
launched_calls =
    (fork_and_exec_in_child granting 2 (launched by_unshare small_request) some_args []).1

-- two mappings of users, and the own group alone
abbrev mapping_runner : Runner
mapping_runner = record traced_runner {
  uid_mappings = some (
      (record { container_id = 0; host_id = 1000; size = 1 })
      ∷ (record { container_id = 1; host_id = 100000; size = 65536 })
      ∷ []);
}

mapped_text_example :
    content_text 7 305 (uid_content mapping_runner) ≡ codes "0 1000 1\n1 100000 65536\n"
unfolding content_text uid_content itoa itoa_from
mapped_text_example = refl

content_text-asked_maps_example :
    (read_entries 2 (content_text 7 305 (uid_content mapping_runner))
      ≡ some (asked_maps 7 mapping_runner.uid_mappings))
    × (read_entries 2 (content_text 7 305 (gid_content mapping_runner))
        ≡ some (asked_maps 305 none))
content_text-asked_maps_example =
    content_text-asked_maps mapping_runner 7 305 2 (omega arith) (omega arith)
