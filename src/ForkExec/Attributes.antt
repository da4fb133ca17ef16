-- ===== src/ForkExec/Attributes.antt =====
-- What the calls of the child make of its process, as the manual pages of the calls state it: an
-- independent description, to which the order of the calls in Child is compared.
use go_sandbox.ForkExec.Child.{with_some}
use go_sandbox.ForkExec.Config.{CString, RLimit}
use go_sandbox.Common.{
  ◌||◌, not, ◌/◌, ◌%◌, ◌==◌, nat_eq, Bool, List, false, ℕ, true, ◌∷◌, ap, Option, ◌++◌, ◌≡◌,
  if◌then◌else◌, [], sym, some, none, refl, ◌∙◌, ◌&&◌, suc, arith,
}
use go_sandbox.ForkExec.Calls.{
  Call, Child, Oracle, done, when, call, ◌>>=◌, goes, call-goes, bind-Parts, securebits, done-goes,
  setuid, kill_stop, write_sync, read_sync, no_new_privs, capset, load_seccomp, traceme,
  unshare_cgroup, ask, call_anyway, call_nonempty, call_or_exists, jump, mount, pivot_root, prlimit,
}

-- `capable` is the possession of the capabilities, and `secure` the secure bits; `mounted` has the
-- targets of the mounts and `limits` the limits, the latest first; `pivoted` is a change of the root;
-- `filters` counts the filters that the kernel accepts, and `reports` and `answers` the messages
-- to and from the parent.
pub record Process : Type 0 where
  pub no_new_privs : Bool
  pub secure : ℕ
  pub capable : Bool
  pub filters : ℕ
  pub traced : Bool
  pub stops : ℕ
  pub own_cgroup : Bool
  pub reports : ℕ
  pub answers : ℕ
  pub mounted : List CString
  pub pivoted : Bool
  pub limits : List RLimit

-- SECBIT_NO_SETUID_FIXUP: a change of user leaves the capabilities
abbrev pub keeps : ℕ → Bool
keeps secure = secure / 4 % 2 == 1

-- SECBIT_NOROOT: an execve by the user 0 gives no capabilities
abbrev pub no_root : ℕ → Bool
no_root secure = secure % 2 == 1

-- Whether a program that the process executes can have capabilities: it keeps those that the process
-- has, and the user 0 gets them anew unless NOROOT or no_new_privs forbids it. The capabilities of the
-- file are left aside.
abbrev pub program_capable : Process → Bool
program_capable p = p.capable || not (no_root p.secure || p.no_new_privs)

-- A filter needs no_new_privs, and a cgroup namespace the capabilities.
abbrev pub effect : Process → Call → Process
effect p no_new_privs = record p { no_new_privs = true }
effect p (securebits bits) = record p { secure = bits }
effect p (setuid _) = record p { capable = p.capable && keeps p.secure }
effect p capset = record p { capable = false }
effect p load_seccomp = record p { filters = if p.no_new_privs then suc p.filters else p.filters }
effect p traceme = record p { traced = true }
effect p (kill_stop _) = record p { stops = suc p.stops }
effect p unshare_cgroup = record p { own_cgroup = p.capable }
effect p (write_sync _ _) = record p { reports = suc p.reports }
effect p (read_sync _) = record p { answers = suc p.answers }
effect p (mount source target fs_type flags text) = record p { mounted = target ∷ p.mounted }
effect p (pivot_root root old) = record p { pivoted = true }
effect p (prlimit l) = record p { limits = l ∷ p.limits }
effect p _ = p

abbrev pub replay : List Call → Process → Process
replay [] p = p
replay (c ∷ cs) p = replay cs (effect p c)

-- right after the clone
abbrev pub cloned : Process
cloned = record {
  no_new_privs = false;
  secure = 0;
  capable = true;
  filters = 0;
  traced = false;
  stops = 0;
  own_cgroup = false;
  reports = 0;
  answers = 0;
  mounted = [];
  pivoted = false;
  limits = [];
}

abbrev pub process : List Call → Process
process log = replay log cloned

replay-append :
    (a : List Call) (c : Call) (p : Process) → replay (a ++ c ∷ []) p ≡ effect (replay a p) c
replay-append [] c p = refl
replay-append (d ∷ a) c p = replay-append a c (effect p d)

-- A stretch that, if it goes on, takes the process from `p` to `q`.
pub record Takes {A : Type 0} (m : Child A) (p q : Process) : Type 0 where
  pub runs :
      (log log' : List Call) (v : A) → process log ≡ p → m log ≡ (goes v, log') → process log' ≡ q

pub call-Takes : (oracle : Oracle) (c : Call) (p : Process) → Takes (call oracle c) p (effect p c)
call-Takes oracle c p = record {
  runs = λ log log' v h e.
      let (ok, l) = call-goes oracle c v log log' e in
      ap (λ k. process k) l ∙ replay-append log c cloned ∙ ap (λ x. effect x c) h;
}

pub done-Takes : {A : Type 0} (a : A) (p : Process) → Takes (done a) p p
done-Takes a p = record {
  runs = λ log log' v h e. ap (λ k. process k) (sym (done-goes a v log log' e).1) ∙ h;
}

pub bind-Takes :
    {A B : Type 0} {m : Child A} {k : A → Child B} {p q r : Process}
    → Takes m p q
    → ((a : A) → Takes (k a) q r)
    → Takes (m >>= k) p r
bind-Takes {m = m} {k = k} hm hk = record {
  runs = λ log log' v h e.
      let parts = bind-Parts m k log log' v e in
      (hk parts.value).runs parts.between log' v
        (hm.runs log parts.between parts.value h parts.first) parts.rest;
}

pub if-Takes :
    {A : Type 0} (b : Bool) {m n : Child A} {p q : Process}
    → Takes m p q
    → Takes n p q
    → Takes (if b then m else n) p q
if-Takes true hm hn = hm
if-Takes false hm hn = hn

pub when-Takes :
    (b : Bool) {m : Child (Unit {0})} {p q : Process}
    → Takes m p q
    → Takes (when b m) p (if b then q else p)
unfolding when
when-Takes true h = h
when-Takes false {p = p} h = done-Takes tt p

-- a guarded stretch that leaves the process alone
pub same-Takes :
    (b : Bool) (p : Process) {m : Child (Unit {0})} → Takes m p p → Takes (when b m) p p
unfolding when
same-Takes true p h = h
same-Takes false p h = done-Takes tt p

pub some-Takes :
    {A : Type 0} (a : Option A) (f : A → Child (Unit {0})) (p : Process)
    → ((x : A) → Takes (f x) p p)
    → Takes (with_some a f) p p
unfolding with_some
some-Takes none f p h = done-Takes tt p
some-Takes (some x) f p h = h x

-- The call is made, whatever comes of it.
pub made-Takes :
    {A : Type 0} (m : Child A) (c : Call) (p : Process)
    → ((log : List Call) → (m log).1 ≡ log ++ c ∷ [])
    → Takes m p (effect p c)
made-Takes m c p made = record {
  runs = λ log log' v h e.
      ap (λ k. process k) (sym (ap (λ x. x.1) e) ∙ made log)
      ∙ replay-append log c cloned
      ∙ ap (λ x. effect x c) h;
}

pub ask-Takes : (oracle : Oracle) (c : Call) (p : Process) → Takes (ask oracle c) p (effect p c)
unfolding ask
ask-Takes oracle c p = made-Takes (ask oracle c) c p (λ log. refl)

pub call_anyway-Takes :
    (oracle : Oracle) (c : Call) (p : Process) → Takes (call_anyway oracle c) p (effect p c)
unfolding call_anyway
call_anyway-Takes oracle c p = made-Takes (call_anyway oracle c) c p (λ log. refl)

pub call_nonempty-Takes :
    (oracle : Oracle) (c : Call) (p : Process) → Takes (call_nonempty oracle c) p (effect p c)
unfolding call_nonempty
call_nonempty-Takes oracle c p = made-Takes (call_nonempty oracle c) c p (λ log. refl)

pub call_or_exists-Takes :
    (oracle : Oracle) (c : Call) (p : Process) → Takes (call_or_exists oracle c) p (effect p c)
unfolding call_or_exists
call_or_exists-Takes oracle c p = made-Takes (call_or_exists oracle c) c p (λ log. refl)

pub jump-Takes : {A : Type 0} (err : ℕ) (p q : Process) → Takes {A = A} (jump err) p q
unfolding jump
jump-Takes err p q = record { runs = λ log log' v h e. absurd (ground arith) }
