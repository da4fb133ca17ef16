-- ===== src/Ptracer/Trace/Kept.antt =====
-- What the handling of a trap keeps: the recorded processes, and the calls that have been made.
use go_sandbox.Common.{
  List, ◌∷◌, ◌++◌, [], ℕ, inl, ◌≡◌, inr, ◌⊎◌, refl, some, Bool-cases, Option, true, ◌==◌, nat_eq,
  nat_beq_iff, Option-cases, none, Bool, if◌then◌else◌, not, false,
}
use go_sandbox.Ptracer.Events.{
  error, TraceHandler, Call, Answers, set_options, Msg, OrError, cont, stop_status, value, read_msg,
  msg_unknown, msg_disallow, msg_handle,
}
use go_sandbox.Runner.{Limit, is_normal}
use go_sandbox.Ptracer.Trace.{
  State, after_handle, Round, Trapped, with_options, next, passed, return, refused, panicked,
  trap_panicked, logged, after_trap, on_trap, on_signal, on_stop_signal, trap_with_regs,
  trap_with_msg, handle_trap,
}
use go_sandbox.Common.Dict.{lookup, lookup-insert}
use go_sandbox.Ptracer.Regs.{Amd64}
use go_sandbox.FileHandler.Handler.{TraceAction, trace_allow, trace_ban, trace_kill}
use go_sandbox.Ptracer.Signals.{sigtrap, ptrace_event_seccomp, ptrace_event_exec}

-- A value occurs in a list.
abbrev pub In : {A : Type 0} → A → List A → Type 0
In a [] = ⊥
In a (x ∷ xs) = (x ≡ a) ⊎ In a xs

pub In-append_left : {A : Type 0} (a : A) (xs ys : List A) → In a xs → In a (xs ++ ys)
In-append_left a (x ∷ xs) ys (inl e) = inl e
In-append_left a (x ∷ xs) ys (inr h) = inr (In-append_left a xs ys h)
In-append_left a [] ys h = elim h [ ]

In-append_last : {A : Type 0} (a : A) (xs : List A) → In a (xs ++ a ∷ [])
In-append_last a [] = inl refl
In-append_last a (x ∷ xs) = inr (In-append_last a xs)

module _ {H : Type 0} (th : TraceHandler H) (limit : Limit) (pgid : ℕ) where
  -- A process that is recorded as traced has had its options set.
  pub record IsOptioned (s : State th limit pgid) : Type 0 where
    pub at : (pid : ℕ) → lookup pid s.traced ≡ some true → In (set_options pid) s.log

  -- the round keeps the invariant, with the process `pid` recorded if `p` says so
  abbrev pub Optioned : (State th limit pgid → Type 0) → Round th limit pgid → Type 0
  Optioned P (next t) = IsOptioned t × P t
  Optioned P (return t) = Unit
  Optioned P (panicked t) = Unit

  abbrev pub TrapOptioned : State th limit pgid → Trapped th limit pgid → Type 0
  TrapOptioned s (passed t) = (t.traced ≡ s.traced) × ((c : Call) → In c s.log → In c t.log)
  TrapOptioned s (refused t message) = Unit
  TrapOptioned s (trap_panicked t) = Unit

  pub IsOptioned-extend :
      (s t : State th limit pgid)
      → t.traced ≡ s.traced
      → ((c : Call) → In c s.log → In c t.log)
      → IsOptioned s
      → IsOptioned t
  IsOptioned-extend s t e f o = record { at = λ p h. f (set_options p) (o.at p (rw e at h)) }

  pub IsOptioned-with_options :
      (pid : ℕ) (s : State th limit pgid)
      → IsOptioned s
      → IsOptioned (with_options th limit pgid pid s)
  IsOptioned-with_options pid s o = record {
    at = λ p h. elim (Bool-cases (pid == p)) [
      | inl e ↦ rw ((nat_beq_iff pid p).0 e) (In-append_last (set_options p) s.log)
      | inr e ↦
          In-append_left (set_options p) s.log (set_options pid ∷ [])
            (o.at p (rw (lookup-insert, e) at h))
    ];
  }

  after_handle-TrapOptioned :
      (pid : ℕ) (ans : Answers) (s : State th limit pgid) (r : Option (H × Amd64 × TraceAction))
      → TrapOptioned s (after_handle th limit pgid pid ans s r)
  unfolding after_handle
  after_handle-TrapOptioned pid ans s none = tt
  after_handle-TrapOptioned pid ans s (some (h, ctx, trace_allow)) = (refl, λ c i. i)
  after_handle-TrapOptioned pid ans s (some (h, ctx, trace_ban)) = elim (Option-cases ans.skip) [
    | inl e ↦ rw e (refl, λ c i. In-append_left c s.log _ i)
    | inr (m, e) ↦ simp e tt
  ]
  after_handle-TrapOptioned pid ans s (some (h, ctx, trace_kill)) = tt

  trap_with_regs-TrapOptioned :
      (pid : ℕ) (ans : Answers) (s : State th limit pgid) (m : Msg) (r : OrError Amd64)
      → TrapOptioned s (trap_with_regs th limit pgid pid ans s m r)
  trap_with_regs-TrapOptioned pid ans s msg_unknown r = (refl, λ c i. i)
  trap_with_regs-TrapOptioned pid ans s msg_disallow (error message) = tt
  trap_with_regs-TrapOptioned pid ans s msg_handle (error message) = tt
  trap_with_regs-TrapOptioned pid ans s msg_disallow (value ctx) =
      elim (Option-cases (th.disallow s.handler (th.syscall_name ctx))) [
        | inl e ↦ rw e (refl, λ c i. i)
        | inr (m, e) ↦ simp e tt
      ]
  trap_with_regs-TrapOptioned pid ans s msg_handle (value ctx) =
      after_handle-TrapOptioned pid ans s (th.handle s.handler ctx)

  trap_with_msg-TrapOptioned :
      (pid : ℕ) (ans : Answers) (s : State th limit pgid) (m : OrError ℕ)
      → TrapOptioned s (trap_with_msg th limit pgid pid ans s m)
  trap_with_msg-TrapOptioned pid ans s (error message) = tt
  trap_with_msg-TrapOptioned pid ans s (value msg) =
      trap_with_regs-TrapOptioned pid ans s (read_msg msg) ans.regs

  -- A round that goes on from `s` keeps the invariant and the record of traced processes.
  abbrev pub Kept : State th limit pgid → Round th limit pgid → Type 0
  Kept s r = IsOptioned s → Optioned (λ t. t.traced ≡ s.traced) r

  pub logged-Kept :
      (s t : State th limit pgid) (c : Call)
      → t.traced ≡ s.traced
      → t.log ≡ s.log
      → Kept s (next (logged th limit pgid c t))
  logged-Kept s t c e l o = (
    IsOptioned-extend s (logged th limit pgid c t) e
        (λ d i. In-append_left d t.log (c ∷ []) (rw l i)) o,
    e,
  )

  Kept-if :
      (s : State th limit pgid) (b : Bool) (x y : Round th limit pgid)
      → Kept s x
      → Kept s y
      → Kept s (if b then x else y)
  Kept-if s true x y kx ky = kx
  Kept-if s false x y kx ky = ky

  after_trap-Kept :
      (pid : ℕ) (s : State th limit pgid) (x : Trapped th limit pgid)
      → TrapOptioned s x
      → Kept s (after_trap th limit pgid pid x)
  after_trap-Kept pid s (passed t) (e, f) o = (
    IsOptioned-extend s (logged th limit pgid (cont pid 0) t) e
        (λ c i. In-append_left c t.log (cont pid 0 ∷ []) (f c i)) o,
    e,
  )
  after_trap-Kept pid s (refused t message) k o = tt
  after_trap-Kept pid s (trap_panicked t) k o = tt

  on_trap-Kept :
      (pid cause : ℕ) (ans : Answers) (s : State th limit pgid)
      → Kept s (on_trap th limit pgid pid cause ans s)
  unfolding on_trap handle_trap
  on_trap-Kept pid cause ans s =
      let goes_on : Kept s (next (logged th limit pgid (cont pid 0) s)) =
        logged-Kept s s (cont pid 0) refl refl in
      Kept-if s (cause == ptrace_event_seccomp) _ _
        (Kept-if s s.execved _ _
          (after_trap-Kept pid s _ (trap_with_msg-TrapOptioned pid ans s ans.event_msg)) goes_on)
        (Kept-if s (cause == ptrace_event_exec) _ _
          (Kept-if s (not s.execved) _ _
            (logged-Kept s (record s { f_time = ans.now; execved = true }) (cont pid 0) refl refl)
            goes_on)
          goes_on)

  on_signal-Kept :
      (pid sig : ℕ) (s : State th limit pgid) → Kept s (on_signal th limit pgid pid sig s)
  unfolding on_signal
  on_signal-Kept pid sig s =
      Kept-if s (not (is_normal (stop_status sig s.status))) _ _ (λ o. tt)
        (logged-Kept s (record s { status = stop_status sig s.status }) (cont pid sig) refl refl)

  pub on_stop_signal-Kept :
      (pid sig cause : ℕ) (ans : Answers) (s : State th limit pgid)
      → Kept s (on_stop_signal th limit pgid pid sig cause ans s)
  unfolding on_stop_signal
  on_stop_signal-Kept pid sig cause ans s =
      Kept-if s (sig == sigtrap) _ _ (on_trap-Kept pid cause ans s) (on_signal-Kept pid sig s)
