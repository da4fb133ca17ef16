-- ===== src/Container/Environment/Deferred.antt =====
-- What each deferred close and each failed call leaves of the descriptors.
use go_sandbox.Common.{◌∷◌, none, some, ℕ, Option, String, ◌≤◌, ◌<◌, ◌≡◌, ap, ◌∙◌, arith, sym}
use go_sandbox.Descriptors.{HostProcess, open_fd, deferred, without}
use go_sandbox.Ptracer.Events.{OrError, error, value}
use go_sandbox.Container.Environment.{
  new_pass_cred_socket_pair, Environment, BuildAnswers, unless_failed, with_value, pass_cred,
}
use go_sandbox.Descriptors.Tables.{
  IsTable, Later, Later-close, Later-trans, without_self, Later-open, without_newer, Later-refl,
  without_fresh, without_older, close_fd-IsTable, without_next, without_swap,
}
use go_sandbox.UnixSocket.Pairs.{Paired, new_socket_pair-Paired}

-- A failed build leaves the descriptors and children of the host as they were; a container adds its
-- socket and its process, and nothing else.
abbrev pub Settled : HostProcess → OrError Environment × HostProcess → Type 0
Settled h (error e, h') = Later h h' × (h'.opened ≡ h.opened)
Settled h (value c, h') =
    IsTable h'
    × (h.next_fd ≤ c.socket)
    × (c.socket < h'.next_fd)
    × (h'.opened ≡ c.socket ∷ h.opened)
    × (h'.children ≡ c.pid ∷ h.children)

-- The same, where the socket is open at the start.
abbrev pub Used : ℕ → HostProcess → OrError Environment × HostProcess → Type 0
Used ins h (error e, h') = Later h h' × (h'.opened ≡ without ins h.opened)
Used ins h (value c, h') =
    IsTable h'
    × (h.next_fd ≤ h'.next_fd)
    × (c.socket ≡ ins)
    × (h'.opened ≡ h.opened)
    × (h'.children ≡ c.pid ∷ h.children)

pub deferred-Settled :
    (h : HostProcess) (r : OrError Environment × HostProcess)
    → IsTable h
    → Settled (open_fd h) r
    → Settled h (deferred h.next_fd r)
deferred-Settled h (error e, h') t (l, o) = (
  Later-close h.next_fd (Later-trans (Later-open (Later-refl h t)) l),
  ap (without h.next_fd) o ∙ without_next h t,
)
deferred-Settled h (value c, h') t (t', le, lt, o, ch) = (
  close_fd-IsTable h.next_fd h' t',
  omega arith,
  lt,
  ap (without h.next_fd) o
      ∙ without_newer c.socket h.next_fd (h.next_fd ∷ h.opened) (omega arith)
      ∙ ap (λ xs. c.socket ∷ xs) (without_next h t),
  ch,
)

pub deferred-Used :
    (ins : ℕ) (h : HostProcess) (r : OrError Environment × HostProcess)
    → IsTable h
    → Used ins (open_fd h) r
    → Used ins h (deferred h.next_fd r)
deferred-Used ins h (error e, h') t (l, o) = (
  Later-close h.next_fd (Later-trans (Later-open (Later-refl h t)) l),
  ap (without h.next_fd) o
      ∙ without_swap h.next_fd ins (h.next_fd ∷ h.opened)
      ∙ ap (without ins) (without_next h t),
)
deferred-Used ins h (value c, h') t (t', le, s, o, ch) = (
  close_fd-IsTable h.next_fd h' t',
  omega arith,
  s,
  ap (without h.next_fd) o ∙ without_next h t,
  ch,
)

module _ (h : HostProcess) (t : IsTable h) (i o : ℕ) (le : h.next_fd ≤ i) (lt : i < o) where
  no_pair : without o (without i (o ∷ i ∷ h.opened)) ≡ h.opened
  no_pair =
      ap (without o) (
        without_newer o i (i ∷ h.opened) lt
        ∙ ap (λ xs. o ∷ xs)
            (without_self i h.opened ∙ without_fresh h.next_fd i h.opened t.older le))
      ∙ without_self o h.opened
      ∙ without_fresh h.next_fd o h.opened t.older (omega arith)

  host_end : without o (o ∷ i ∷ h.opened) ≡ i ∷ h.opened
  host_end =
      without_self o (i ∷ h.opened)
      ∙ without_older i o h.opened lt
      ∙ ap (λ xs. i ∷ xs) (without_fresh h.next_fd o h.opened t.older (omega arith))

-- At the end of the pair's life the container's end is closed, and the host's unless it is used.
pub deferred-Paired :
    (h h₂ : HostProcess) (i o : ℕ) (r : OrError Environment × HostProcess)
    → IsTable h
    → Paired h (value (i, o), h₂)
    → Used i h₂ r
    → Settled h (deferred o r)
deferred-Paired h h₂ i o (error e, h') t (l, le, lt, lt', eq) (m, gone) = (
  Later-close o (Later-trans l m),
  ap (without o) (gone ∙ ap (without i) eq) ∙ no_pair h t i o le lt,
)
deferred-Paired h h₂ i o (value c, h') t (l, le, lt, lt', eq) (t', grown, s, same, ch) = (
  close_fd-IsTable o h' t',
  omega (arith, s),
  omega (arith, s),
  ap (without o) (same ∙ eq) ∙ host_end h t i o le lt ∙ ap (λ k. k ∷ h.opened) (sym s),
  ch ∙ ap (λ xs. c.pid ∷ xs) l.same_children,
)

module _ {B : Type 0} (P : OrError B × HostProcess → Type 0) where
  pub unless_failed-any :
      (err : Option String) (h : HostProcess) (r : OrError B × HostProcess)
      → ((e : String) → P (error e, h))
      → P r
      → P (unless_failed err h r)
  unless_failed-any (some e) h r f p = f e
  unless_failed-any none h r f p = p

  pub with_value-any :
      {A : Type 0} (x : OrError A) (h : HostProcess) (f : A → OrError B × HostProcess)
      → ((e : String) → P (error e, h))
      → ((a : A) → P (f a))
      → P (with_value x h f)
  with_value-any (error e) h f p q = p e
  with_value-any (value a) h f p q = q a

pass_cred-Paired :
    (err : Option String) (h : HostProcess) (r : OrError (ℕ × ℕ) × HostProcess)
    → IsTable h
    → Paired h r
    → Paired h (pass_cred err r)
pass_cred-Paired err h (error e, h₂) t p = p
pass_cred-Paired (some e) h (value (i, o), h₂) t (l, le, lt, lt', eq) = (
  Later-close o (Later-close i l),
  ap (λ xs. without o (without i xs)) eq ∙ no_pair h t i o le lt,
)
pass_cred-Paired none h (value (i, o), h₂) t p = p

pub new_pass_cred_socket_pair-Paired :
    (a : BuildAnswers) (h : HostProcess) → IsTable h → Paired h (new_pass_cred_socket_pair a h)
unfolding new_pass_cred_socket_pair
new_pass_cred_socket_pair-Paired a h t =
    pass_cred-Paired a.pass_cred_error h _ t (new_socket_pair-Paired a.sockets h t)
