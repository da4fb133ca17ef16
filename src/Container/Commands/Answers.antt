-- ===== src/Container/Commands/Answers.antt =====
-- What the answers to the open command mean.
use go_sandbox.Container.Commands.{
  Files, Container, OpenCmd, open_all, handle_open, answer_cmd, named_files, host_open, open_answer,
  ok_reply, open_reply,
}
use go_sandbox.Common.{
  [], ◌∷◌, none, some, ℕ, ◌≡◌, List, Option-cases, suc, length, inl, ◌⊎◌, String, inr, ◌∙◌, arith,
  refl, ap, nat_beq_iff,
}
use go_sandbox.Ptracer.Events.{OrError, value, error}
use go_sandbox.FilePaths.{FilePath}

pub OrError-cases :
    {A : Type 0} (o : OrError A) → ((a : A) × (o ≡ value a)) ⊎ ((e : String) × (o ≡ error e))
OrError-cases (value a) = inl (a, refl)
OrError-cases (error e) = inr (e, refl)

-- Each file has been opened in turn, with the descriptor of the list.
abbrev pub Opened : {W : Type 0} → Files W → List OpenCmd → List ℕ → W → Type 0
Opened fs [] [] w = Unit
Opened fs (o ∷ os) (fd ∷ fds) w =
    ((fs.open_file o w).0 ≡ value fd) × Opened fs os fds (fs.open_file o w).1
Opened fs _ _ w = ⊥

abbrev pub with_paths : List OpenCmd → List ℕ → List (ℕ × FilePath)
with_paths (o ∷ os) (fd ∷ fds) = (fd, o.path) ∷ with_paths os fds
with_paths _ _ = []

module _ {W : Type 0} (fs : Files W) where
  open_all-Opened :
      (os : List OpenCmd) (w : W)
      → (open_all fs os w).0 ≡ none
      → Opened fs os (open_all fs os w).1 w
  unfolding open_all
  open_all-Opened [] w h = tt
  open_all-Opened (o ∷ os) w h = elim (OrError-cases (fs.open_file o w).0) [
    | inl (fd, e) ↦
        rw (e, open_all) (e, open_all-Opened os (fs.open_file o w).1 (rw (e, open_all) at h))
    | inr (t, e) ↦ absurd (ground arith)
  ]

  Opened-length :
      (os : List OpenCmd) (fds : List ℕ) (w : W) → Opened fs os fds w → length fds ≡ length os
  Opened-length [] [] w p = refl
  Opened-length (o ∷ os) (fd ∷ fds) w p = ap suc (Opened-length os fds (fs.open_file o w).1 p.1)
  Opened-length [] (fd ∷ fds) w p = elim p [ ]
  Opened-length (o ∷ os) [] w p = elim p [ ]

  named_files-with_paths :
      (os : List OpenCmd) (fds : List ℕ) → named_files fds os ≡ with_paths os fds
  unfolding named_files
  named_files-with_paths [] [] = refl
  named_files-with_paths [] (fd ∷ fds) = refl
  named_files-with_paths (o ∷ os) [] = refl
  named_files-with_paths (o ∷ os) (fd ∷ fds) =
      ap (λ r. (fd, o.path) ∷ r) (named_files-with_paths os fds)

  right_count :
      (os : List OpenCmd) (fds : List ℕ)
      → length fds ≡ length os
      → open_answer os (ok_reply fds) ≡ value (with_paths os fds)
  unfolding open_answer
  right_count os fds h =
      rw (h, (nat_beq_iff (length os) (length os)).1 refl)
        (ap (λ r. value r) (named_files-with_paths os fds))

  -- `Open` of the host for some files: either every file has been opened, and each descriptor comes
  -- back with its own path, or a file could not be opened and its error comes back. The answer that
  -- the number of descriptors is wrong does not occur.
  pub host_open-Opened :
      (o : OpenCmd) (os : List OpenCmd) (c : Container W)
      → (let all = o ∷ os in
          ((fds : List ℕ) × Opened fs all fds c.files
            × ((host_open fs all c).0 ≡ value (with_paths all fds)))
          ⊎ ((e : String) × ((open_all fs all c.files).0 ≡ some e)
              × ((host_open fs all c).0 ≡ error e)))
  unfolding host_open answer_cmd handle_open open_answer
  host_open-Opened o os c =
      let all = o ∷ os in
      elim (Option-cases (open_all fs all c.files).0) [
        | inr (e, h) ↦
            inr (e, h, ap (λ x. open_answer all (open_reply x (open_all fs all c.files).1)) h)
        | inl h ↦
            let fds = (open_all fs all c.files).1 in
            let p = open_all-Opened all c.files h in
            inl (
              fds,
              p,
              ap (λ x. open_answer all (open_reply x fds)) h
                  ∙ right_count all fds (Opened-length all fds c.files p),
            )
      ]
