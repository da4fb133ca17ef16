-- ===== src/Container/Commands/Held.antt =====
-- Which descriptors the commands leave open in the container.
use go_sandbox.Container.Commands.{
  Files, Container, OpenCmd, open_all, close_all, remove_names, remove_contents, handle_open,
  handle_reset, answer_cmd, handle_ping, handle_conf, handle_delete, Cmd, cmd_conf, cmd_open,
  cmd_delete, cmd_ping, cmd_reset, remove_read, in_dir,
}
use go_sandbox.Container.Commands.Answers.{OrError-cases}
use go_sandbox.Common.{
  [], ◌∷◌, none, some, ℕ, Bool, true, false, ◌≡◌, List, Option-cases, codes, inl, inr, String, not,
  ◌&&◌, ◌||◌, ◌==◌, nat_eq, ◌∙◌, arith, refl, ap, nat_beq_iff,
}
use go_sandbox.Ptracer.Events.{OrError, value, error}
use go_sandbox.FilePaths.{FilePath}

-- `held x w` says that the descriptor `x` is open. A call that opens answers a new one and leaves the
-- others, a close closes its own, and no other call opens or closes any.
pub record HeldLaws {W : Type 0} (fs : Files W) (held : ℕ → W → Bool) : Type 0 where
  pub opened :
      (o : OpenCmd) (w : W) (fd : ℕ)
      → (fs.open_file o w).0 ≡ value fd
      → (held fd w ≡ false) × ((x : ℕ) → held x (fs.open_file o w).1 ≡ ((x == fd) || held x w))
  pub unopened :
      (o : OpenCmd) (w : W) (e : String)
      → (fs.open_file o w).0 ≡ error e
      → (x : ℕ) → held x (fs.open_file o w).1 ≡ held x w
  pub dir_opened :
      (d : FilePath) (w : W) (fd : ℕ)
      → (fs.open_dir d w).0 ≡ value fd
      → (held fd w ≡ false) × ((x : ℕ) → held x (fs.open_dir d w).1 ≡ ((x == fd) || held x w))
  pub dir_unopened :
      (d : FilePath) (w : W) (e : String)
      → (fs.open_dir d w).0 ≡ error e
      → (x : ℕ) → held x (fs.open_dir d w).1 ≡ held x w
  pub closed : (fd : ℕ) (w : W) (x : ℕ) → held x (fs.close_file fd w) ≡ (not (x == fd) && held x w)
  pub removed : (p : FilePath) (w : W) (x : ℕ) → held x (fs.remove p w).1 ≡ held x w
  pub removed_all : (d n : FilePath) (w : W) (x : ℕ) → held x (fs.remove_all d n w).1 ≡ held x w

abbrev pub lists : List ℕ → ℕ → Bool
lists [] x = false
lists (fd ∷ fds) x = (x == fd) || lists fds x

-- What is opened before and is new, and closed again behind, leaves nothing.
pub added_and_taken :
    (new old now then : Bool)
    → now ≡ (new || old)
    → (new ≡ true → old ≡ false)
    → then ≡ (not new && now)
    → then ≡ old
added_and_taken true old now then n f t = ground (arith, f refl)
added_and_taken false old now then n f t = ground arith

-- One descriptor is opened before the later ones, each new.
pub both_added :
    (mine later old mid now : Bool)
    → now ≡ (later || mid)
    → (later ≡ true → mid ≡ false)
    → mid ≡ (mine || old)
    → (mine ≡ true → old ≡ false)
    → (now ≡ ((mine || later) || old)) × ((mine || later) ≡ true → old ≡ false)
both_added true true old mid now n f m g = (ground (arith, f refl), λ h. g refl)
both_added true false old mid now n f m g = (ground arith, λ h. g refl)
both_added false true old mid now n f m g = (ground arith, λ h. ground (arith, f refl))
both_added false false old mid now n f m g = (ground arith, λ h. ground arith)

module _ {W : Type 0} (fs : Files W) (held : ℕ → W → Bool) (law : HeldLaws fs held) where
  -- the descriptors of an open, which are new
  open_all-held :
      (os : List OpenCmd) (w : W) (x : ℕ)
      → (let r = open_all fs os w in
          (held x r.2 ≡ (lists r.1 x || held x w)) × (lists r.1 x ≡ true → held x w ≡ false))
  unfolding open_all
  open_all-held [] w x = (refl, λ h. ground arith)
  open_all-held (o ∷ os) w x = elim (OrError-cases (fs.open_file o w).0) [
    | inl (fd, e) ↦
        let (now, fresh) = open_all-held os (fs.open_file o w).1 x in
        let (new, one) = law.opened o w fd e in
        rw (e, open_all)
          (both_added (x == fd) (lists (open_all fs os (fs.open_file o w).1).1 x) (held x w)
            (held x (fs.open_file o w).1) _ now fresh (one x)
            (λ q. ap (λ y. held y w) ((nat_beq_iff x fd).0 q) ∙ new))
    | inr (t, e) ↦ rw (e, open_all) (law.unopened o w t e x, λ h. ground arith)
  ]

  close_all-held :
      (fds : List ℕ) (w : W) (x : ℕ) → held x (close_all fs fds w) ≡ (not (lists fds x) && held x w)
  unfolding close_all
  close_all-held [] w x = refl
  close_all-held (fd ∷ fds) w x =
      law.closed fd (close_all fs fds w) x ∙ rw (close_all-held fds w x) (ground arith)

  remove_names-held :
      (d : FilePath) (ns : List FilePath) (w : W) (x : ℕ)
      → held x (remove_names fs d ns w).1 ≡ held x w
  unfolding remove_names
  remove_names-held d [] w x = refl
  remove_names-held d (n ∷ ns) w x = elim (Option-cases (fs.remove_all d n w).0) [
    | inl e ↦
        rw (e, remove_names)
          (remove_names-held d ns (fs.remove_all d n w).1 x ∙ law.removed_all d n w x)
    | inr (t, e) ↦ rw (e, remove_names) (law.removed_all d n w x)
  ]

  remove_read-held :
      (d : FilePath) (o : OrError (List FilePath)) (w : W) (x : ℕ)
      → held x (remove_read fs d o w).1 ≡ held x w
  remove_read-held d (error e) w x = refl
  remove_read-held d (value ns) w x = remove_names-held d ns w x

  remove_contents-held :
      (d : FilePath) (w : W) (x : ℕ) → held x (remove_contents fs d w).1 ≡ held x w
  unfolding remove_contents
  remove_contents-held d w x = elim (OrError-cases (fs.open_dir d w).0) [
    | inr (t, e) ↦ rw (e, in_dir) (law.dir_unopened d w t e x)
    | inl (fd, e) ↦
        let w1 = (fs.open_dir d w).1 in
        let w2 = (remove_read fs d (fs.read_names fd w1) w1).1 in
        let (new, one) = law.dir_opened d w fd e in
        rw (e, in_dir)
          (added_and_taken (x == fd) (held x w) (held x w2) _
            (remove_read-held d (fs.read_names fd w1) w1 x ∙ one x)
            (λ q. ap (λ y. held y w) ((nat_beq_iff x fd).0 q) ∙ new) (law.closed fd w2 x))
  ]

  handle_open-held :
      (os : List OpenCmd) (c : Container W) (x : ℕ)
      → held x (handle_open fs os c).1.files ≡ held x c.files
  unfolding handle_open
  handle_open-held [] c x = refl
  handle_open-held (o ∷ os) c x =
      let r = open_all fs (o ∷ os) c.files in
      let (now, fresh) = open_all-held (o ∷ os) c.files x in
      added_and_taken (lists r.1 x) (held x c.files) (held x r.2) _ now fresh
        (close_all-held r.1 r.2 x)

  handle_reset-held :
      (c : Container W) (x : ℕ) → held x (handle_reset fs c).1.files ≡ held x c.files
  unfolding handle_reset
  handle_reset-held c x = elim (Option-cases (remove_contents fs (codes "/tmp") c.files).0) [
    | inl e ↦
        rw (e, handle_reset)
          (remove_contents-held (codes "/w") (remove_contents fs (codes "/tmp") c.files).1 x
            ∙ remove_contents-held (codes "/tmp") c.files x)
    | inr (t, e) ↦ rw (e, handle_reset) (remove_contents-held (codes "/tmp") c.files x)
  ]

  -- No command of one message leaves a descriptor open or closes another one, on any path, a failed
  -- `open` in the middle of several included.
  pub answer_cmd-held :
      (m : Cmd) (c : Container W) (x : ℕ) → held x (answer_cmd fs m c).1.files ≡ held x c.files
  unfolding answer_cmd handle_ping handle_conf handle_delete
  answer_cmd-held cmd_ping c x = refl
  answer_cmd-held (cmd_conf none) c x = refl
  answer_cmd-held (cmd_conf (some b)) c x = refl
  answer_cmd-held (cmd_open os) c x = handle_open-held os c x
  answer_cmd-held (cmd_delete none) c x = refl
  answer_cmd-held (cmd_delete (some p)) c x = law.removed p c.files x
  answer_cmd-held cmd_reset c x = handle_reset-held c x
