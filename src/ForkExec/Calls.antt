-- ===== src/ForkExec/Calls.antt =====
-- The raw system calls of the child, and what the kernel may answer: any answer that depends on
-- the calls made so far. A failing call sends the child to its error label.
use go_sandbox.Common.{
  ℕ, List, Bool, ◌++◌, if◌then◌else◌, ◌∷◌, ◌==◌, nat_eq, Option, [], ◌||◌, not, ◌≡◌, arith, refl,
  subst,
}
use go_sandbox.ForkExec.Config.{CString, RLimit}

pub data Call : Type 0 where
  close : ℕ → Call
  read_sync : ℕ → Call
  write_sync : ℕ → ℕ → Call
  getpid setsid ioctl_ctty no_new_privs capset unshare_cgroup traceme load_seccomp : Call
  securebits : ℕ → Call
  setgroups : List ℕ → Call
  setgid setuid : ℕ → Call
  dup3 : ℕ → ℕ → Bool → Call
  clear_cloexec : ℕ → Call
  mount : CString → CString → Option CString → ℕ → Option CString → Call
  chdir mkdirat mknodat umount_detach rmdirat : CString → Call
  pivot_root : CString → CString → Call
  sethostname setdomainname : CString → Call
  prlimit : RLimit → Call
  kill_stop : ℕ → Call
  execveat_fd : ℕ → Call
  execveat_path : Call

-- r1, the error number, and for a read the value that it stores
pub record Reply : Type 0 where
  pub r1 : ℕ
  pub err : ℕ
  pub stored : ℕ

abbrev pub Oracle : Type 0
Oracle = List Call → Call → Reply

-- The child goes on, or jumps to `childerror` with the value of err1, which it sends to the parent.
-- Its exit code, err1 + err2, is read by nobody and left out.
pub data Outcome (A : Type 0) : Type 0 where
  goes : A → Outcome A
  child_error : ℕ → Outcome A

-- A stretch of the child's code, over the calls made so far.
abbrev pub Child : Type 0 → Type 0
Child A = List Call → Outcome A × List Call

abbrev pub resume : {A B : Type 0} → Outcome A × List Call → (A → Child B) → Outcome B × List Call
resume (goes a, log) k = k a log
resume (child_error err1, log) k = (child_error err1, log)

infixl 5 ◌>>=◌ ◌>>◌
unfoldable pub ◌>>=◌ : {A B : Type 0} → Child A → (A → Child B) → Child B
◌>>=◌ m k log = resume (m log) k

abbrev pub ◌>>◌ : {B : Type 0} → Child (Unit {0}) → Child B → Child B
m >> k = m >>= λ _. k

unfoldable pub done : {A : Type 0} → A → Child A
done a log = (goes a, log)

unfoldable pub jump : {A : Type 0} → ℕ → Child A
jump err1 log = (child_error err1, log)

unfoldable pub when : Bool → Child (Unit {0}) → Child (Unit {0})
unfolding done
when b m = if b then m else done tt

module _ (oracle : Oracle) where
  -- a call whose answer the code inspects itself
  unfoldable pub ask : Call → Child Reply
  ask c log = (goes (oracle log c), log ++ c ∷ [])

  -- if err1 != 0 { goto childerror }
  unfoldable pub call : Call → Child (Unit {0})
  call c log =
      ((if (oracle log c).err == 0 then goes tt else child_error (oracle log c).err), log ++ c ∷ [])

  -- the same, but EEXIST is no error
  unfoldable pub call_or_exists : Call → Child (Unit {0})
  call_or_exists c log = (
    (if ((oracle log c).err == 0) || ((oracle log c).err == 17)
        then goes tt
        else child_error (oracle log c).err),
    log ++ c ∷ [],
  )

  -- a call whose errors are not looked at
  unfoldable pub call_anyway : Call → Child (Unit {0})
  call_anyway c log = (goes tt, log ++ c ∷ [])

  -- if r1 == 0 || err1 != 0 { goto childerror }
  unfoldable pub call_nonempty : Call → Child (Unit {0})
  call_nonempty c log = (
    (if ((oracle log c).r1 == 0) || not ((oracle log c).err == 0)
        then child_error (oracle log c).err
        else goes tt),
    log ++ c ∷ [],
  )

-- A stretch that goes on has gone on in each of its parts.
pub record Parts {A B : Type 0} (m : Outcome A × List Call) (k : A → Child B)
    (end : Outcome B × List Call) : Type 0 where
  pub value : A
  pub between : List Call
  pub first : m ≡ (goes value, between)
  pub rest : k value between ≡ end

resume-Parts :
    {A B : Type 0} (m : Outcome A × List Call) (k : A → Child B) (b : B) (log' : List Call)
    → resume m k ≡ (goes b, log')
    → Parts m k (goes b, log')
resume-Parts (goes a, log) k b log' e = record { value = a; between = log; first = refl; rest = e }
resume-Parts (child_error err1, log) k b log' e = absurd (ground arith)

pub bind-Parts :
    {A B : Type 0} (m : Child A) (k : A → Child B) (log log' : List Call) (b : B)
    → (m >>= k) log ≡ (goes b, log')
    → Parts (m log) k (goes b, log')
unfolding ◌>>=◌
bind-Parts m k log log' b e = resume-Parts (m log) k b log' e

pub done-goes :
    {A : Type 0} (a b : A) (log log' : List Call)
    → done a log ≡ (goes b, log')
    → (a ≡ b) × (log ≡ log')
unfolding done
done-goes a b log log' e = (cc, cc)

pub call-goes :
    (oracle : Oracle) (c : Call) (u : Unit) (log log' : List Call)
    → call oracle c log ≡ (goes u, log')
    → ((oracle log c).err ≡ 0) × (log' ≡ log ++ c ∷ [])
unfolding call
call-goes oracle c u log log' e = ground arith

-- What holds of the value and the calls of a stretch that ends in `done`.
pub done-subst :
    {A : Type 0} (P : A → List Call → Type 0) (a b : A) (log log' : List Call)
    → done a log ≡ (goes b, log')
    → P a log
    → P b log'
done-subst P a b log log' e h =
    let (p, q) = done-goes a b log log' e in subst (λ x. P x log') p (subst (λ l. P a l) q h)

pub call_anyway-goes :
    (oracle : Oracle) (c : Call) (u : Unit) (log log' : List Call)
    → call_anyway oracle c log ≡ (goes u, log')
    → log ++ c ∷ [] ≡ log'
unfolding call_anyway
call_anyway-goes oracle c u log log' e = cc
