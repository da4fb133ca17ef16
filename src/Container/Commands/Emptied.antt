-- ===== src/Container/Commands/Emptied.antt =====
-- What a successful reset leaves in the two directories.
use go_sandbox.Container.Commands.{
  Files, remove_names, remove_contents, host_reset, answer_cmd, handle_reset, recv_ack_reply,
  Container, ack, remove_read, in_dir,
}
use go_sandbox.Common.{
  [], ◌∷◌, none, Bool, List, ◌≡◌, true, false, Option-cases, inl, inr, arith, ◌≢◌, Bool-cases, sym,
  ◌∙◌, ap, codes, Option, String, some, refl, ℕ,
}
use go_sandbox.FilePaths.{FilePath}
use go_sandbox.Ptracer.Events.{value, OrError, error}
use go_sandbox.Common.Explore.{Among}
use go_sandbox.Container.Commands.Answers.{OrError-cases}

-- `present d n w` says that the directory `d` has the name `n`. A listing that succeeds names all,
-- opening and closing a directory leaves it, a removal that succeeds removes its name, and no removal adds a name.
pub record Listing {W : Type 0} (fs : Files W) (present : FilePath → FilePath → W → Bool)
    : Type 0 where
  pub listed :
      (d n : FilePath) (w : W) (fd : ℕ) (ns : List FilePath)
      → (fs.open_dir d w).0 ≡ value fd
      → fs.read_names fd (fs.open_dir d w).1 ≡ value ns
      → present d n (fs.open_dir d w).1 ≡ true
      → Among n ns
  pub dir_opened : (d d' n : FilePath) (w : W) → present d' n (fs.open_dir d w).1 ≡ present d' n w
  pub dir_closed :
      (fd : ℕ) (d' n : FilePath) (w : W) → present d' n (fs.close_file fd w) ≡ present d' n w
  pub gone :
      (d n : FilePath) (w : W)
      → (fs.remove_all d n w).0 ≡ none
      → present d n (fs.remove_all d n w).1 ≡ false
  pub no_more :
      (d n d' n' : FilePath) (w : W)
      → present d' n' (fs.remove_all d n w).1 ≡ true
      → present d' n' w ≡ true

module _ {W : Type 0} (fs : Files W) (present : FilePath → FilePath → W → Bool)
    (law : Listing fs present) where
  remove_names-fewer :
      (d : FilePath) (ns : List FilePath) (d' n' : FilePath) (w : W)
      → present d' n' (remove_names fs d ns w).1 ≡ true
      → present d' n' w ≡ true
  unfolding remove_names
  remove_names-fewer d [] d' n' w h = h
  remove_names-fewer d (n ∷ ns) d' n' w h = elim (Option-cases (fs.remove_all d n w).0) [
    | inl e ↦
        law.no_more d n d' n' w
          (remove_names-fewer d ns d' n' (fs.remove_all d n w).1 (rw (e, remove_names) at h))
    | inr (t, e) ↦ law.no_more d n d' n' w (rw (e, remove_names) at h)
  ]

  remove_names-gone :
      (d : FilePath) (ns : List FilePath) (n' : FilePath) (w : W)
      → (remove_names fs d ns w).0 ≡ none
      → Among n' ns
      → present d n' (remove_names fs d ns w).1 ≡ false
  unfolding remove_names
  remove_names-gone d [] n' w e m = elim m [ ]
  remove_names-gone d (n ∷ ns) n' w h (inr m) = elim (Option-cases (fs.remove_all d n w).0) [
    | inl e ↦
        rw (e, remove_names)
          (remove_names-gone d ns n' (fs.remove_all d n w).1 (rw (e, remove_names) at h) m)
    | inr (t, e) ↦ absurd (ground arith)
  ]
  remove_names-gone d (n ∷ ns) n' w h (inl q) = elim (Option-cases (fs.remove_all d n w).0) [
    | inr (t, e) ↦ absurd (ground arith)
    | inl e ↦
        let w1 = (fs.remove_all d n w).1 in
        elim (Bool-cases (present d n' (remove_names fs d ns w1).1)) [
          | inr b ↦ rw (e, remove_names) b
          | inl b ↦ absurd (
              true-or-false (
                sym (remove_names-fewer d ns d n' w1 b)
                ∙ ap (λ x. present d x w1) q
                ∙ law.gone d n w e))
        ]
  ]
    where
      true-or-false : true ≢ false
      true-or-false e = ground arith

  remove_read-fewer :
      (d d' n' : FilePath) (o : OrError (List FilePath)) (w : W)
      → present d' n' (remove_read fs d o w).1 ≡ true
      → present d' n' w ≡ true
  remove_read-fewer d d' n' (value ns) w h = remove_names-fewer d ns d' n' w h
  remove_read-fewer d d' n' (error e) w h = h

  remove_contents-fewer :
      (d d' n' : FilePath) (w : W)
      → present d' n' (remove_contents fs d w).1 ≡ true
      → present d' n' w ≡ true
  unfolding remove_contents
  remove_contents-fewer d d' n' w h = elim (OrError-cases (fs.open_dir d w).0) [
    | inl (fd, e) ↦
        let w1 = (fs.open_dir d w).1 in
        sym (law.dir_opened d d' n' w)
        ∙ remove_read-fewer d d' n' (fs.read_names fd w1) w1 (
            sym (law.dir_closed fd d' n' (remove_read fs d (fs.read_names fd w1) w1).1)
            ∙ (rw (e, in_dir) at h))
    | inr (t, e) ↦ sym (law.dir_opened d d' n' w) ∙ (rw (e, in_dir) at h)
  ]

  remove_read-gone :
      (d n : FilePath) (fd : ℕ) (o : OrError (List FilePath)) (w : W)
      → (fs.open_dir d w).0 ≡ value fd
      → fs.read_names fd (fs.open_dir d w).1 ≡ o
      → (remove_read fs d o (fs.open_dir d w).1).0 ≡ none
      → present d n (remove_read fs d o (fs.open_dir d w).1).1 ≡ false
  remove_read-gone d n fd (error t) w q r h = absurd (ground arith)
  remove_read-gone d n fd (value ns) w q r h =
      let w1 = (fs.open_dir d w).1 in
      elim (Bool-cases (present d n (remove_names fs d ns w1).1)) [
        | inr b ↦ b
        | inl b ↦
            remove_names-gone d ns n w1 h
              (law.listed d n w fd ns q r (remove_names-fewer d ns d n w1 b))
      ]

  remove_contents-gone :
      (d n : FilePath) (w : W)
      → (remove_contents fs d w).0 ≡ none
      → present d n (remove_contents fs d w).1 ≡ false
  unfolding remove_contents
  remove_contents-gone d n w h = elim (OrError-cases (fs.open_dir d w).0) [
    | inr (t, e) ↦ absurd (ground arith)
    | inl (fd, e) ↦
        let w1 = (fs.open_dir d w).1 in
        rw (e, in_dir)
          (law.dir_closed fd d n (remove_read fs d (fs.read_names fd w1) w1).1
            ∙ remove_read-gone d n fd (fs.read_names fd w1) w e refl (rw (e, in_dir) at h))
  ]

  ack-none : (o : Option String) → (ack o).reply_error ≡ none → o ≡ none
  ack-none none h = refl
  ack-none (some e) h = h

  stays-gone :
      (d n : FilePath) (w : W)
      → present d n w ≡ false
      → present d n (remove_contents fs (codes "/w") w).1 ≡ false
  stays-gone d n w h = elim (Bool-cases (present d n (remove_contents fs (codes "/w") w).1)) [
    | inr b ↦ b
    | inl b ↦ absurd (ground (arith, remove_contents-fewer (codes "/w") d n w b))
  ]

  -- A reset that reports no error leaves no name in /tmp and none in /w.
  pub host_reset-empty :
      (c : Container W) (n : FilePath)
      → (host_reset fs c).0 ≡ none
      → (present (codes "/tmp") n (host_reset fs c).1.files ≡ false)
        × (present (codes "/w") n (host_reset fs c).1.files ≡ false)
  unfolding host_reset answer_cmd handle_reset recv_ack_reply
  host_reset-empty c n h = elim (Option-cases (remove_contents fs (codes "/tmp") c.files).0) [
    | inr (t, e) ↦ absurd (ground arith)
    | inl e ↦
        let w1 = (remove_contents fs (codes "/tmp") c.files).1 in
        let e' = ack-none (remove_contents fs (codes "/w") w1).0 (rw (e, handle_reset) at h) in
        rw (e, handle_reset)
          (
            stays-gone (codes "/tmp") n w1 (remove_contents-gone (codes "/tmp") n c.files e),
            remove_contents-gone (codes "/w") n w1 e',
          )
  ]
