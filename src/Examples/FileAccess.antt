-- ===== src/Examples/FileAccess.antt =====
-- File access on a small file system: `/data` is a link to `/srv/data`.
use go_sandbox.FileHandler.SyscallCounter
use go_sandbox.FilePaths.{FilePath, dirname, last_index, join}
use go_sandbox.FileHandler.FileSet.{
  FileSet, is_in_set_smart, add_range, new_file_set, smart_loop, has, add,
}
use go_sandbox.FileHandler.FileSets.{
  FileSets, is_writable_file, new_file_sets, add_file_permission, read, write, is_readable_file,
  is_statable_file, real_path, add_parents,
}
use go_sandbox.FileHandler.FileSets.Hierarchy.{
  Keeps, add_file_permission-Keeps, add_file_permission-statable,
}
use go_sandbox.FileHandler.FileSet.Covered.{parent, Covered, is_in_set_smart-Covered}
use go_sandbox.FileHandler.Handler.{Handler, check_write, trace_allow, check_read, check_stat}
use go_sandbox.Common.{
  codes, ℕ, Option, ◌≡◌, true, String, if◌then◌else◌, some, ◌==◌, ◌∷◌, ◌↔◌, nat_eq, [], none,
  bytes_eq, refl, false, arith,
}
use go_sandbox.Common.Dict.{lookup, insert}
use go_sandbox.FileHandler.SyscallCounter.{check, new_syscall_counter}
use go_sandbox.Ptracer.Regs.{Amd64}
use go_sandbox.PtraceRunner.{Handled, handle, is_read_only, abs_path}
use go_sandbox.PtraceRunner.Handle.{Registers, Passed, handle-Passed}
use go_sandbox.FileHandler.Handler.Verdicts.{Refused, check_verdicts}
use go_sandbox.FileHandler.SyscallCounter.Budget.{occurrences, check_all, check_budget}
use go_sandbox.Common.Int.{pos}

abbrev links : FilePath → Option FilePath
links p = if p == codes "/data" then some (codes "/srv/data") else some p

abbrev tree : FileSet
tree =
    add_range new_file_set (codes "/usr/lib/" ∷ codes "/bin/*" ∷ codes "../run" ∷ [])
      (codes "/w/job")

tree_answers :
    (is_in_set_smart tree (codes "/usr/lib/x/y") ≡ true)
    × (is_in_set_smart tree (codes "/bin/sh") ≡ true)
    × (is_in_set_smart tree (codes "/bin/a/b") ≡ false)
    × (is_in_set_smart tree (codes "/w/run/log") ≡ true)
    × (is_in_set_smart tree (codes "/w/job") ≡ false)
unfolding is_in_set_smart add_range smart_loop has lookup insert dirname last_index join
tree_answers = (refl, refl, refl, refl, refl)

is_in_set_smart-Covered_example :
    (is_in_set_smart tree (codes "/usr/lib/x") ≡ true) ↔ Covered tree (codes "/usr/lib/x")
is_in_set_smart-Covered_example = is_in_set_smart-Covered tree (codes "/usr/lib/x")

abbrev granted : FileSets
granted = record new_file_sets { readable = tree }

add_file_permission-Keeps_example :
    Keeps links granted (add_file_permission granted (codes "/w/job/a") read) (codes "/usr/lib/x")
    × ((add_file_permission granted (codes "/w/job/a") read).soft_ban ≡ granted.soft_ban)
add_file_permission-Keeps_example =
    add_file_permission-Keeps links granted (codes "/w/job/a") read (codes "/usr/lib/x")

add_file_permission-statable_example :
    is_statable_file links (add_file_permission granted (codes "/w/job/a") write) (codes "/w")
    ≡ true
unfolding parent dirname last_index
add_file_permission-statable_example =
    add_file_permission-statable links granted (codes "/w/job/a") write 1 b'/' (codes "w") refl

abbrev handler : Handler
handler = record {
  file_set = add_file_permission granted (codes "/data") write;
  syscall_counter = SyscallCounter.add new_syscall_counter "clone" (pos 3);
}

check_verdicts_example :
    let fn = codes "/etc/passwd" in
    (check_write links handler fn ≡ trace_allow → check_read links handler fn ≡ trace_allow)
    × (check_read links handler fn ≡ trace_allow → check_stat links handler fn ≡ trace_allow)
    × Refused links handler fn (check_write links handler fn)
    × Refused links handler fn (check_read links handler fn)
    × Refused links handler fn (check_stat links handler fn)
check_verdicts_example = check_verdicts links handler (codes "/etc/passwd")

check_budget_example :
    let c = check (check_all handler.syscall_counter ("clone" ∷ "fork" ∷ [])) "clone" in
    (c.inside ≡ true) × (c.allow ≡ true)
unfolding lookup SyscallCounter.add insert occurrences
check_budget_example =
    check_budget handler.syscall_counter "clone" 3 ("clone" ∷ "fork" ∷ []) refl (omega arith)

-- A counter of 1 allows no call at all.
one_allows_none :
    (check (SyscallCounter.add [] "set_tid_address" (pos 1)) "set_tid_address").allow ≡ false
unfolding check SyscallCounter.add insert lookup
one_allows_none = refl

abbrev names : ℕ → Option String
names n = if n == 2 then some "open" else if n == 59 then some "execve" else none

abbrev texts : ℕ → Option FilePath
texts a = if a == 4096 then some (codes "job/../run/log") else none

abbrev opening : Amd64
opening = record { orig_rax = 2; rax = 0; rdi = 4096; rsi = 0; rdx = 0; r10 = 0; r8 = 0; r9 = 0 }

abbrev opened : Handled
opened = record { handler = handler; ctx = opening; action = trace_allow }

opening_passes : handle links (codes "/w") texts names handler opening ≡ some opened
unfolding handle check_read is_readable_file is_writable_file real_path is_in_set_smart add_range
    smart_loop has lookup insert dirname last_index join add_file_permission add_parents add
    is_read_only SyscallCounter.add abs_path
opening_passes = refl

handle-Passed_example :
    Registers links (codes "/w") texts opening trace_allow opening
    × (opened.action ≡ trace_allow → Passed links (codes "/w") texts (some "open") handler opening)
handle-Passed_example =
    handle-Passed links (codes "/w") texts names handler opening opened opening_passes
