-- ===== src/Darwin/Child.antt =====
-- The child of forkAndExecInChild of pkg/forkexec/fork_child_darwin.go, from the fork to the execve. The
-- kernel answers as it likes, with the calls made so far before it.
pub mod Sandboxed
use go_sandbox.Common.{
  zero, suc, [], ◌∷◌, none, some, true, false, ℕ, List, Option, Bool, if◌then◌else◌, ◌++◌, not, ltb,
  String, ◌==◌, nat_eq, ◌||◌,
}
use go_sandbox.ForkExec.Fds.{prepare_fds}
use go_sandbox.ForkExec.Config.{CString, RLimit}
use go_sandbox.ForkExec.Calls.{Reply}
use go_sandbox.Common.Int.{ℤ, negsuc, unsigned, pos}

pub data Call : Type 0 where
  close set_cloexec clear_cloexec read_sync : ℕ → Call
  write_sync : ℕ → ℕ → Call
  setpgid sandbox_init sandbox_free_error execve : Call
  dup2 : ℕ → ℕ → Call
  chdir : CString → Call
  setrlimit : RLimit → Call

abbrev pub Kernel : Type 0
Kernel = List Call → Call → Reply

-- On to the next call, or to `childerror` with err1.
pub data Step (A : Type 0) : Type 0 where
  goes_on : A → Step A
  child_error : ℕ → Step A

abbrev pub Code : Type 0 → Type 0
Code A = List Call → Step A × List Call

abbrev pub and_then : {A B : Type 0} → Step A × List Call → (A → Code B) → Step B × List Call
and_then (goes_on a, log) k = k a log
and_then (child_error e, log) k = (child_error e, log)

infixl 5 ◌>>=◌ ◌>>◌
unfoldable pub ◌>>=◌ : {A B : Type 0} → Code A → (A → Code B) → Code B
◌>>=◌ m k log = and_then (m log) k

abbrev pub ◌>>◌ : {B : Type 0} → Code (Unit {0}) → Code B → Code B
m >> k = m >>= λ _. k

unfoldable pub skip : {A : Type 0} → A → Code A
skip a log = (goes_on a, log)

-- The parameters of the function and the fields of the runner that it reads.
pub record DarwinRunner : Type 0 where
  pub files : List ℤ
  pub rlimits : List RLimit
  pub work_dir : Option CString
  pub has_profile : Bool
  pub parent_end : ℕ
  pub child_end : ℕ

-- `pipe` and `nextfd`
pub record Places : Type 0 where
  pub pipe : ℕ
  pub nextfd : ℕ

-- if nextfd == pipe { nextfd++ }
abbrev pub beside_pipe : Places → ℕ
beside_pipe s = if s.nextfd == s.pipe then suc s.nextfd else s.nextfd

module _ (kernel : Kernel) where
  -- if err1 != 0 { goto childerror }
  unfoldable pub try_call : Call → Code (Unit {0})
  try_call c log = (
    (if (kernel log c).err == 0 then goes_on tt else child_error (kernel log c).err),
    log ++ c ∷ [],
  )

  -- a call whose error is not looked at
  unfoldable pub just_call : Call → Code (Unit {0})
  just_call c log = (goes_on tt, log ++ c ∷ [])

  -- if r1 == 0 || err1 != 0 { goto childerror }
  unfoldable pub sync_call : Call → Code (Unit {0})
  sync_call c log = (
    (if ((kernel log c).r1 == 0) || not ((kernel log c).err == 0)
        then child_error (kernel log c).err
        else goes_on tt),
    log ++ c ∷ [],
  )

  -- if r1 != 0 { err1 = 253; goto childerror }
  unfoldable pub profile_call : Call → Code (Unit {0})
  profile_call c log = (
    (if not ((kernel log c).err == 0)
        then child_error (kernel log c).err
        else if not ((kernel log c).r1 == 0)
        then child_error 253
        else goes_on tt),
    log ++ c ∷ [],
  )

  -- dup2 to a number that is closed on the execve
  unfoldable pub dup_away : ℕ → ℕ → Code (Unit {0})
  unfolding try_call just_call
  dup_away fd n = do try_call (dup2 fd n); just_call (set_cloexec n)

  unfoldable pub place_pipe : Places → Code Places
  unfolding dup_away
  place_pipe s =
      if ltb s.pipe s.nextfd
      then (do dup_away s.pipe s.nextfd; skip (record { pipe = s.nextfd; nextfd = suc s.nextfd }))
      else skip s

  unfoldable pub first_pass : ℕ → List ℤ → Places → Code (List ℤ × Places)
  unfolding dup_away
  first_pass i [] s = skip ([], s)
  first_pass i (negsuc n ∷ fds) s = do
    (rest, t) ← first_pass (suc i) fds s
    skip (negsuc n ∷ rest, t)
  first_pass i (pos fd ∷ fds) s =
      let n = beside_pipe s in
      let stay = first_pass (suc i) fds s >>= λ (rest, t). skip (pos fd ∷ rest, t) in
      let move = (do
        dup_away fd n
        (rest, t) ← first_pass (suc i) fds (record s { nextfd = suc n })
        skip (pos n ∷ rest, t)) in
      if ltb fd i then move else stay

  unfoldable pub second_pass : ℕ → List ℤ → Code (Unit {0})
  unfolding try_call just_call
  second_pass i [] = skip tt
  second_pass i (negsuc zero ∷ fds) = do just_call (close i); second_pass (suc i) fds
  second_pass i (negsuc (suc n) ∷ fds) = do
    try_call (dup2 (unsigned 64 (negsuc (suc n))) i)
    second_pass (suc i) fds
  second_pass i (pos fd ∷ fds) = do
    if fd == i then try_call (clear_cloexec fd) else try_call (dup2 fd i)
    second_pass (suc i) fds

  unfoldable pub place_files : DarwinRunner → Code Places
  unfolding place_pipe first_pass second_pass
  place_files r = do
    s ← place_pipe (record { pipe = r.child_end; nextfd = (prepare_fds r.files).1 })
    (fds, t) ← first_pass 0 r.files s
    second_pass 0 fds
    skip t

  unfoldable pub change_dir : Option CString → Code (Unit {0})
  unfolding try_call
  change_dir none = skip tt
  change_dir (some d) = try_call (chdir d)

  unfoldable pub limit_all : List RLimit → Code (Unit {0})
  unfolding try_call
  limit_all [] = skip tt
  limit_all (l ∷ ls) = do try_call (setrlimit l); limit_all ls

  unfoldable pub load_profile : Bool → Code (Unit {0})
  unfolding profile_call just_call
  load_profile false = skip tt
  load_profile true = do profile_call sandbox_init; just_call sandbox_free_error

  -- the report to the parent and its answer
  unfoldable pub sync_before_exec : ℕ → Code (Unit {0})
  unfolding sync_call
  sync_before_exec pipe = do sync_call (write_sync pipe 0); sync_call (read_sync pipe)

  unfoldable pub exec_in_child : DarwinRunner → Code (Unit {0})
  unfolding place_files change_dir limit_all load_profile sync_before_exec
  exec_in_child r = do
    try_call (close r.parent_end)
    try_call setpgid
    s ← place_files r
    change_dir r.work_dir
    limit_all r.rlimits
    load_profile r.has_profile
    sync_before_exec s.pipe
    try_call execve
