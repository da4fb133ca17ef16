-- ===== src/Darwin/Child/Sandboxed.antt =====
-- The order in which the child loads its profile, tells its parent, hears from it, and executes.
use go_sandbox.Common.{[], ◌∷◌, true, false, List, Bool, if◌then◌else◌, ◌++◌, ◌≡◌, ℕ, nat_eq}
use go_sandbox.Darwin.Child.{
  Call, Code, Kernel, try_call, goes_on, read_sync, write_sync, sandbox_init, execve, change_dir,
  limit_all, load_profile, Places, DarwinRunner, sync_before_exec, ◌>>◌,
}

-- The calls whose order matters: all that are not about files, limits and the directory.
abbrev pub is_key : Call → Bool
is_key (read_sync _) = true
is_key (write_sync _ _) = true
is_key sandbox_init = true
is_key execve = true
is_key _ = false

abbrev pub keys : List Call → List Call
keys [] = []
keys (c ∷ cs) = if is_key c then c ∷ keys cs else keys cs

abbrev key : Call → List Call
key c = if is_key c then c ∷ [] else []

-- A stretch that goes on has made these calls.
record Emits {A : Type 0} (m : Code A) (ks : List Call) : Type 0 where
  made : (log log' : List Call) (a : A) → m log ≡ (goes_on a, log') → keys log' ≡ keys log ++ ks

module _ (kernel : Kernel) where
  abbrev pub at_end : ℕ → List Call
  at_end pipe = write_sync pipe 0 ∷ read_sync pipe ∷ execve ∷ []

  -- the end of the child's code, once its files are placed
  unfoldable the_end : DarwinRunner → Places → Code (Unit {0})
  the_end r s = do
    change_dir kernel r.work_dir
    limit_all kernel r.rlimits
    load_profile kernel r.has_profile
    sync_before_exec kernel s.pipe
    try_call kernel execve

  abbrev pub profile_then : Bool → List Call → List Call
  profile_then b ks = (if b then sandbox_init ∷ [] else []) ++ ks
