-- ===== src/UnixSocket/Pairs.antt =====
-- A pair of sockets leaves two descriptors behind, or none.
use go_sandbox.Common.{
  ◌∷◌, ℕ, List, Option-cases, suc, inr, ◌≡◌, ◌<◌, ap, Bool-cases, inl, ◌≤◌, arith, refl, ◌∙◌,
}
use go_sandbox.UnixSocket.{
  new_socket, new_socket_pair, file_conn, PairAnswers, SocketAnswers, with_receiver, with_sender,
}
use go_sandbox.Descriptors.{HostProcess, without, open_fd}
use go_sandbox.Ptracer.Events.{OrError, error, value}
use go_sandbox.Descriptors.Tables.{
  IsTable, Later, Later-refl, without_newer, Later-close, without_twice, Later-trans,
  open_fd-IsTable, Later-open, without_next, without_self, without_fresh, without_swap,
}

-- What NewSocket does with a descriptor: it is replaced by a new one, or all else is as before.
abbrev Socketed : ℕ → HostProcess → OrError ℕ × HostProcess → Type 0
Socketed fd h (error e, h') = Later h h' × (without fd h'.opened ≡ without fd h.opened)
Socketed fd h (value c, h') =
    Later h h' × (h.next_fd ≤ c) × (c < h'.next_fd) × (h'.opened ≡ c ∷ without fd h.opened)

new_socket-Socketed :
    (a : SocketAnswers) (fd : ℕ) (h : HostProcess)
    → IsTable h
    → fd < h.next_fd
    → Socketed fd h (new_socket a fd h)
unfolding new_socket file_conn
new_socket-Socketed a fd h t lt =
    let same = Later-refl h t in
    elim (Bool-cases a.valid) [
      | inr v ↦ rw v (same, refl)
      | inl v ↦ elim (Option-cases a.conn_error) [
        | inr (e, eq) ↦ rw (v, eq) (Later-close fd same, without_twice fd h.opened)
        | inl eq ↦ elim (Bool-cases a.unix_conn) [
          | inl u ↦
              rw (v, eq, u)
                (
                  Later-close fd (Later-open same),
                  omega arith,
                  omega arith,
                  without_newer h.next_fd fd h.opened lt,
                )
          | inr u ↦
              rw (v, eq, u)
                (
                  Later-close fd (Later-close h.next_fd (Later-open same)),
                  ap (λ xs. without fd (without fd xs)) (without_next h t)
                      ∙ without_twice fd h.opened,
                )
        ]
      ]
    ]

-- The result of a pair of sockets: the two newest descriptors, or as before.
abbrev pub Paired : HostProcess → OrError (ℕ × ℕ) × HostProcess → Type 0
Paired h (error e, h') = Later h h' × (h'.opened ≡ h.opened)
Paired h (value (i, o), h') =
    Later h h' × (h.next_fd ≤ i) × (i < o) × (o < h'.next_fd) × (h'.opened ≡ o ∷ i ∷ h.opened)

module _ (h : HostProcess) (t : IsTable h) where
  abbrev ends : List ℕ
  ends = suc h.next_fd ∷ h.next_fd ∷ h.opened

  one_end :
      (c : ℕ)
      → suc h.next_fd < c
      → without (suc h.next_fd) (c ∷ suc h.next_fd ∷ h.opened) ≡ c ∷ h.opened
  one_end c lt =
      without_newer c (suc h.next_fd) (suc h.next_fd ∷ h.opened) lt
      ∙ ap (λ xs. c ∷ xs)
          (without_self (suc h.next_fd) h.opened
            ∙ without_fresh h.next_fd (suc h.next_fd) h.opened t.older (omega arith))

  first_end : without h.next_fd ends ≡ suc h.next_fd ∷ h.opened
  first_end =
      without_newer (suc h.next_fd) h.next_fd (h.next_fd ∷ h.opened) (omega arith)
      ∙ ap (λ xs. suc h.next_fd ∷ xs) (without_next h t)

  no_ends : without (suc h.next_fd) (without h.next_fd ends) ≡ h.opened
  no_ends =
      ap (without (suc h.next_fd)) first_end
      ∙ without_self (suc h.next_fd) h.opened
      ∙ without_fresh h.next_fd (suc h.next_fd) h.opened t.older (omega arith)

  with_receiver-Paired :
      (c : ℕ) (h₂ : HostProcess) (r : OrError ℕ × HostProcess)
      → Later h h₂
      → suc h.next_fd < c
      → c < h₂.next_fd
      → h₂.opened ≡ c ∷ suc h.next_fd ∷ h.opened
      → Socketed (suc h.next_fd) h₂ r
      → Paired h (with_receiver c (suc h.next_fd) r)
  with_receiver-Paired c h₂ (error e, h₃) l lt lt' o (m, gone) = (
    Later-close _ (Later-close _ (Later-trans l m)),
    without_swap (suc h.next_fd) c h₃.opened
        ∙ ap (without c) (gone ∙ ap (without (suc h.next_fd)) o ∙ one_end c lt)
        ∙ without_self c h.opened
        ∙ without_fresh h.next_fd c h.opened t.older (omega arith),
  )
  with_receiver-Paired c h₂ (value d, h₃) l lt lt' o (m, le, dlt, o') = (
    Later-trans l m,
    omega arith,
    omega arith,
    dlt,
    o' ∙ ap (λ xs. d ∷ xs) (ap (without (suc h.next_fd)) o ∙ one_end c lt),
  )

  with_sender-Paired :
      (receiver : SocketAnswers) (r : OrError ℕ × HostProcess)
      → Socketed h.next_fd (open_fd (open_fd h)) r
      → Paired h (with_sender receiver h.next_fd (suc h.next_fd) r)
  with_sender-Paired receiver (error e, h₂) (l, gone) = (
    Later-close _ (Later-close _ (Later-trans (Later-open (Later-open (Later-refl h t))) l)),
    ap (without (suc h.next_fd)) gone ∙ no_ends,
  )
  with_sender-Paired receiver (value c, h₂) (l, le, clt, o) =
      with_receiver-Paired c h₂ (new_socket receiver (suc h.next_fd) h₂)
        (Later-trans (Later-open (Later-open (Later-refl h t))) l) (omega arith) clt
        (o ∙ ap (λ xs. c ∷ xs) first_end)
        (new_socket-Socketed receiver (suc h.next_fd) h₂ l.table (omega arith))

pub new_socket_pair-Paired :
    (a : PairAnswers) (h : HostProcess) → IsTable h → Paired h (new_socket_pair a h)
unfolding new_socket_pair
new_socket_pair-Paired a h t = elim (Option-cases a.pair_error) [
  | inr (e, eq) ↦ rw eq (Later-refl h t, refl)
  | inl eq ↦ rw eq (
      with_sender-Paired h t a.receiver _ (
        new_socket-Socketed a.sender h.next_fd (open_fd (open_fd h))
          (open_fd-IsTable _ (open_fd-IsTable h t)) (omega arith)))
]
