-- ===== src/ForkExec/Fds.antt =====
-- The file descriptors of the child: prepareFds of pkg/forkexec/fork_util.go, and the two passes of
-- forkAndExecInChild in fork_child_linux.go that move descriptor `files[i]` to `i`.
pub mod Placement
pub mod Landing
pub mod Assigned
use go_sandbox.Common.{
  ℕ, List, Bool, suc, ltb, ◌==◌, if◌then◌else◌, nat_eq, ◌∷◌, length, zero, ◌||◌, ◌&&◌, [], true,
  false,
}
use go_sandbox.ForkExec.Calls.{
  Oracle, Child, done, ◌>>◌, ◌>>=◌, call, call_anyway, dup3, close, clear_cloexec,
}
use go_sandbox.Common.Int.{ℤ, pos, negsuc, unsigned}

-- the loop of prepareFds: the greatest of the length and the descriptors
unfoldable pub max_fd : ℕ → List ℤ → ℕ
max_fd nextfd [] = nextfd
max_fd nextfd (pos fd ∷ files) = max_fd (if ltb nextfd fd then fd else nextfd) files
max_fd nextfd (negsuc _ ∷ files) = max_fd nextfd files

unfoldable pub prepare_fds : List ℤ → List ℤ × ℕ
unfolding max_fd
prepare_fds files = (files, suc (max_fd (length files) files))

-- The variables `pipe`, `r.ExecFile` and `nextfd`.
pub record Slots : Type 0 where
  pub pipe : ℕ
  pub exec_file : ℕ
  pub nextfd : ℕ

abbrev pub is_taken : Slots → ℕ → Bool
is_taken s n = (n == s.pipe) || (ltb 0 s.exec_file && (n == s.exec_file))

-- for nextfd == pipe || (r.ExecFile > 0 && nextfd == int(r.ExecFile)) { nextfd++ }
-- Two numbers can be taken, so three rounds find a free one.
unfoldable pub skip_taken : ℕ → Slots → ℕ → ℕ
skip_taken zero s n = n
skip_taken (suc fuel) s n = let rest = skip_taken fuel s (suc n) in if is_taken s n then rest else n

abbrev pub avoid_taken : Slots → Slots
avoid_taken s = record s { nextfd = skip_taken 3 s s.nextfd }

abbrev pub is_below : ℕ → ℕ → Bool
is_below fd i = ltb fd i

module _ (oracle : Oracle) where
  unfoldable pub move_pipe : Slots → Child Slots
  move_pipe s =
      if ltb s.pipe s.nextfd
      then (do
        call oracle (dup3 s.pipe s.nextfd true)
        done (record s { pipe = s.nextfd; nextfd = suc s.nextfd }))
      else done s

  unfoldable pub move_exec_file : Slots → Child Slots
  move_exec_file s =
      if ltb 0 s.exec_file && ltb s.exec_file s.nextfd
      then (do
        call oracle (dup3 s.exec_file s.nextfd true)
        done (record s { exec_file = s.nextfd; nextfd = suc s.nextfd }))
      else done s

  -- pass 1: fd[i] < i => nextfd
  unfoldable pub pass_one : ℕ → List ℤ → Slots → Child (List ℤ × Slots)
  pass_one i [] s = done ([], s)
  pass_one i (negsuc n ∷ fds) s = do (rest, s') ← pass_one (suc i) fds s; done (negsuc n ∷ rest, s')
  pass_one i (pos fd ∷ fds) s =
      let free = avoid_taken s in
      let stay = pass_one (suc i) fds s >>= λ (rest, s'). done (pos fd ∷ rest, s') in
      let move = (do
        call oracle (dup3 fd free.nextfd true)
        (rest, s') ← pass_one (suc i) fds (record free { nextfd = suc free.nextfd })
        done (pos free.nextfd ∷ rest, s')) in
      if is_below fd i then move else stay

  -- pass 2: fd[i] => i
  unfoldable pub pass_two : ℕ → List ℤ → Child (Unit {0})
  pass_two i [] = done tt
  pass_two i (negsuc zero ∷ fds) = do call_anyway oracle (close i); pass_two (suc i) fds
  pass_two i (negsuc (suc n) ∷ fds) = do
    call oracle (dup3 (unsigned 64 (negsuc (suc n))) i false)
    pass_two (suc i) fds
  pass_two i (pos fd ∷ fds) = do
    if fd == i then call oracle (clear_cloexec fd) else call oracle (dup3 fd i false)
    pass_two (suc i) fds

  unfoldable pub assign_fds : List ℤ → ℕ → ℕ → Child Slots
  unfolding prepare_fds
  assign_fds files pipe exec_file = do
    s ← move_pipe (record { pipe = pipe; exec_file = exec_file; nextfd = (prepare_fds files).1 })
    s' ← move_exec_file s
    (fds, s'') ← pass_one 0 files s'
    pass_two 0 fds
    done s''
