-- ===== src/Examples/Commanding.antt =====
-- A small file system on which the commands of a container are run, and runs of the unshare runner.
use go_sandbox.Container.Commands.Server.{
  serve, serve-held, Request, one_reply, cmd_execve, Execution, ExecutionLaws,
}
use go_sandbox.Container.Commands.Held.{HeldLaws, lists, both_added}
use go_sandbox.Container.Commands.{
  cmd_reset, Files, Container, OpenCmd, answer_cmd, host_reset, cmd_open, handle_reset, host_open,
  recv_ack_reply, remove_contents, remove_names, open_all, ok_reply,
}
use go_sandbox.Container.Commands.Answers.{Opened, with_paths, host_open-Opened}
use go_sandbox.Common.{
  [], ◌∷◌, none, some, zero, suc, ℕ, true, List, Bool, String, if◌then◌else◌, ◌≡◌, false,
  Bool-cases, subst, is_some, bytes_eq, ◌==◌, nat_eq, inl, refl, or_right, inr, ◌⊎◌, or_cases,
  codes, ◌≢◌, or_left, arith, not, ◌+◌, ◌<◌, ◌||◌, nat_beq_iff, ap, ◌&&◌, ◌∙◌,
}
use go_sandbox.Runner.{
  Limit, Rusage, normal, user_mem, user_time, Result, invalid, time_limit_exceeded,
}
use go_sandbox.FilePaths.{FilePath}
use go_sandbox.Ptracer.Events.{
  value, OrError, Wait, error, interrupted, reaped, continued, exited, signaled,
}
use go_sandbox.Container.Commands.Emptied.{Listing, host_reset-empty}
use go_sandbox.Common.Int.{pos}
use go_sandbox.Unshare.Verdict.{has_end, ExitsWell, wait_loop_verdict}
use go_sandbox.Unshare.{usage_status, wait_loop}
use go_sandbox.Common.Explore.{is_member, Among, is_member-Among}
use go_sandbox.Container.Status.{
  exec_reply_of, reply_signal, as_result, used, exec_reply_of-wait_loop,
}

-- the open descriptors, and the names that every directory has
pub record Disk : Type 0 where
  pub live : List ℕ
  pub names : List FilePath

abbrev without : FilePath → List FilePath → List FilePath
without n [] = []
without n (m ∷ ms) = if n == m then without n ms else m ∷ without n ms

-- a number above all
abbrev above : List ℕ → ℕ
above [] = 0
above (x ∷ xs) = suc x + above xs

abbrev opened : Disk → Disk
opened w = record w { live = above w.live ∷ w.live }

abbrev try_open : FilePath → Disk → OrError ℕ × Disk
try_open [] w = (error "no such file", w)
try_open (_ ∷ _) w = (value (above w.live), opened w)

abbrev dropped : ℕ → List ℕ → List ℕ
dropped fd [] = []
dropped fd (x ∷ xs) = let rest = dropped fd xs in if x == fd then rest else x ∷ rest

abbrev disk_files : Files Disk
disk_files = record {
  open_file = λ o w. try_open o.path w;
  close_file = λ fd w. record w { live = dropped fd w.live };
  remove = λ p w. (none, record w { names = without p w.names });
  open_dir = try_open;
  read_names = λ fd w. value w.names;
  remove_all = λ d n w. (none, record w { names = without n w.names });
}

abbrev received : ℕ → Disk → List ℕ × Disk
received zero w = ([], w)
received (suc n) w = let (fds, w') = received n (opened w) in (above w.live ∷ fds, w')

abbrev disk_execution : Execution Disk
disk_execution = record {
  receive = received;
  close_on_exec = λ fd w. w;
  exchange = λ exec files w. (ok_reply [] ∷ [], w);
}

abbrev is_held : ℕ → Disk → Bool
is_held x w = lists w.live x

lists-above : (xs : List ℕ) (n : ℕ) → lists xs n ≡ true → n < above xs
lists-above [] n h = absurd (ground arith)
lists-above (x ∷ xs) n h = elim (Bool-cases (n == x)) [
  | inl b ↦ omega (arith, (nat_beq_iff n x).0 b)
  | inr b ↦ omega (arith, lists-above xs n (rw b at h))
]

above-new : (xs : List ℕ) → lists xs (above xs) ≡ false
above-new xs = elim (Bool-cases (lists xs (above xs))) [
  | inr b ↦ b
  | inl b ↦ absurd (omega (arith, lists-above xs (above xs) b))
]

lists-dropped :
    (fd : ℕ) (xs : List ℕ) (x : ℕ) → lists (dropped fd xs) x ≡ (not (x == fd) && lists xs x)
lists-dropped fd [] x = ground arith
lists-dropped fd (y ∷ ys) x = ground (arith, lists-dropped fd ys x)

try_open-value :
    (p : FilePath) (w : Disk) (fd : ℕ)
    → (try_open p w).0 ≡ value fd
    → (is_held fd w ≡ false) × ((x : ℕ) → is_held x (try_open p w).1 ≡ ((x == fd) || is_held x w))
try_open-value [] w fd e = cc
try_open-value (_ ∷ _) w fd e =
    subst
      (λ f. (is_held f w ≡ false) × ((x : ℕ) → is_held x (opened w) ≡ ((x == f) || is_held x w)))
      (number-inj e) (above-new w.live, λ x. refl)
  where
    number-inj : {a b : ℕ} → value a ≡ value b → a ≡ b
    number-inj h = cc

try_open-error :
    (p : FilePath) (w : Disk) (t : String)
    → (try_open p w).0 ≡ error t
    → (x : ℕ) → is_held x (try_open p w).1 ≡ is_held x w
try_open-error [] w t e x = refl
try_open-error (_ ∷ _) w t e x = cc

disk-HeldLaws : HeldLaws disk_files is_held
disk-HeldLaws = record {
  opened = λ o w fd e. try_open-value o.path w fd e;
  unopened = λ o w t e. try_open-error o.path w t e;
  dir_opened = try_open-value;
  dir_unopened = try_open-error;
  closed = λ fd w x. lists-dropped fd w.live x;
  removed = λ p w x. refl;
  removed_all = λ d n w x. refl;
}

received-held :
    (n : ℕ) (w : Disk) (x : ℕ)
    → (is_held x (received n w).1 ≡ (lists (received n w).0 x || is_held x w))
      × (lists (received n w).0 x ≡ true → is_held x w ≡ false)
received-held zero w x = (refl, λ h. ground arith)
received-held (suc n) w x =
    let (now, fresh) = received-held n (opened w) x in
    both_added (x == above w.live) (lists (received n (opened w)).0 x) (is_held x w)
      (is_held x (opened w)) _ now fresh refl
      (λ q. ap (λ y. is_held y w) ((nat_beq_iff x (above w.live)).0 q) ∙ above-new w.live)

disk-ExecutionLaws : ExecutionLaws disk_execution is_held
disk-ExecutionLaws = record {
  received = received-held;
  flagged = λ fd w x. refl;
  exchanged = λ exec files w x. refl;
}

abbrev disk_present : FilePath → FilePath → Disk → Bool
disk_present d n w = is_member n w.names

without-gone : (n : FilePath) (ms : List FilePath) → is_member n (without n ms) ≡ false
without-gone n [] = refl
without-gone n (m ∷ ms) = elim (Bool-cases (n == m)) [
  | inl b ↦ rw b (without-gone n ms)
  | inr b ↦ rw (b, b) (without-gone n ms)
]

without-fewer :
    (n k : FilePath) (ms : List FilePath)
    → is_member k (without n ms) ≡ true
    → is_member k ms ≡ true
without-fewer n k [] h = h
without-fewer n k (m ∷ ms) h = elim (Bool-cases (n == m)) [
  | inl b ↦ or_right (k == m) (is_member k ms) (without-fewer n k ms (rw b at h))
  | inr b ↦ elim (or_cases (k == m) (is_member k (without n ms)) (rw b at h)) [
    | inl q ↦ or_left (k == m) (is_member k ms) q
    | inr q ↦ or_right (k == m) (is_member k ms) (without-fewer n k ms q)
  ]
]

disk-Listing : Listing disk_files disk_present
disk-Listing = record {
  listed = λ d n w fd ns q e m. listed_in d n w ns e m;
  dir_opened = λ d d' n w. opening_keeps d d' n w;
  dir_closed = λ fd d' n w. refl;
  gone = λ d n w e. without-gone n w.names;
  no_more = λ d n d' n' w h. without-fewer n n' w.names h;
}
  where
    value-inj : {a b : List FilePath} → value a ≡ value b → a ≡ b
    value-inj e = cc

    opening_keeps :
        (d d' n : FilePath) (w : Disk) → disk_present d' n (try_open d w).1 ≡ disk_present d' n w
    opening_keeps [] d' n w = refl
    opening_keeps (c ∷ cs) d' n w = refl

    listed_in :
        (d n : FilePath) (w : Disk) (ns : List FilePath)
        → value (try_open d w).1.names ≡ value ns
        → disk_present d n (try_open d w).1 ≡ true
        → Among n ns
    listed_in d n w ns e m =
        subst (λ l. Among n l) (value-inj e) (is_member-Among n (try_open d w).1.names m)

abbrev disk : Container Disk
disk = record {
  files = record { live = 3 ∷ 1 ∷ []; names = (97 ∷ []) ∷ (98 ∷ []) ∷ [] };
  cred = true;
}

abbrev good_file : OpenCmd
good_file = record { path = 97 ∷ []; flag = 0; perm = 0 }

abbrev bad_file : OpenCmd
bad_file = record { path = []; flag = 0; perm = 0 }

-- The second of three files cannot be opened, a program runs with two files, one without the file
-- that it needs, which ends the loop.
abbrev session : List (OrError Request)
session =
    value (one_reply (cmd_open (good_file ∷ bad_file ∷ good_file ∷ [])))
    ∷ value (cmd_execve (some true) 2)
    ∷ value (one_reply cmd_reset)
    ∷ value (cmd_execve (some true) 0)
    ∷ []

serve-held_example : is_held 3 (serve disk_files disk_execution session disk).container.files ≡ true
serve-held_example =
    serve-held disk_files disk_execution is_held disk-HeldLaws disk-ExecutionLaws session disk 3
      refl

host_open-Opened_example :
    ((fds : List ℕ) × Opened disk_files (good_file ∷ good_file ∷ []) fds disk.files
      × ((host_open disk_files (good_file ∷ good_file ∷ []) disk).0
          ≡ value (with_paths (good_file ∷ good_file ∷ []) fds)))
    ⊎ ((e : String) × ((open_all disk_files (good_file ∷ good_file ∷ []) disk.files).0 ≡ some e)
        × ((host_open disk_files (good_file ∷ good_file ∷ []) disk).0 ≡ error e))
host_open-Opened_example = host_open-Opened disk_files good_file (good_file ∷ []) disk

host_reset-empty_example :
    (disk_present (codes "/tmp") (97 ∷ []) (host_reset disk_files disk).1.files ≡ false)
    × (disk_present (codes "/w") (97 ∷ []) (host_reset disk_files disk).1.files ≡ false)
unfolding host_reset answer_cmd handle_reset recv_ack_reply remove_contents remove_names
host_reset-empty_example = host_reset-empty disk_files disk_present disk-Listing disk (97 ∷ []) refl

abbrev some_limit : Limit
some_limit = record { time_limit = pos 1000000000; memory_limit = 1048576 }

abbrev small_usage : Rusage
small_usage = record { utime_sec = 0; utime_usec = 5; maxrss = 100 }

abbrev waits : List Wait
waits = interrupted ∷ reaped 7 continued small_usage ∷ reaped 7 (exited 0) small_usage ∷ []

wait_loop_verdict_example :
    (has_end some_limit waits ≡ true → is_some (wait_loop some_limit waits) ≡ true)
    × ((r : Result)
        → wait_loop some_limit waits ≡ some r
        → (r.status ≢ invalid) × (r.status ≡ normal → ExitsWell some_limit waits r))
wait_loop_verdict_example = wait_loop_verdict some_limit waits

exec_reply_of-wait_loop_example :
    wait_loop some_limit (reaped 7 (signaled 9) small_usage ∷ [])
    ≡ as_result (used small_usage (pos 9) time_limit_exceeded)
unfolding usage_status user_mem user_time exec_reply_of reply_signal
exec_reply_of-wait_loop_example =
    exec_reply_of-wait_loop some_limit (signaled 9) small_usage 7
      (used small_usage (pos 9) time_limit_exceeded) refl refl
