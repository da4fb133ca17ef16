-- ===== src/ForkExec/Fds/Landing.antt =====
-- After both passes descriptor `i` of the child shows the file that was at `files[i]`.
use go_sandbox.ForkExec.Fds.Placement.{Descriptors, Placed, differ}
use go_sandbox.Common.{
  ℕ, zero, List, ◌<◌, ◌⊎◌, ◌∷◌, ◌+◌, ◌≤◌, ◌≡◌, if◌then◌else◌, ◌≢◌, suc, length, false, ◌==◌, ◌++◌,
  nat_eq, arith, [], inl, ap, Bool-cases, inr, ◌∙◌, same_refl, nat_beq_iff, refl, sym,
}
use go_sandbox.ForkExec.Calls.{
  Call, Oracle, dup3, goes, clear_cloexec, call, done-subst, call-goes, bind-Parts, call_anyway,
  close, call_anyway-goes,
}
use go_sandbox.Common.Int.{ℤ, pos, negsuc, unsigned}
use go_sandbox.ForkExec.Fds.{pass_two}

further : (i n x : ℕ) → (x < i) ⊎ (i + suc n ≤ x) → (x < suc i) ⊎ (suc i + n ≤ x)
further i n x (inl h) = inl (omega arith)
further i n x (inr h) = inr (omega arith)

outside : (i n x : ℕ) → (x < i) ⊎ (i + suc n ≤ x) → x ≢ i
outside i n x h e = omega arith

module _ {F : Type 0} (at : List Call → ℕ → F) where
  Placed-forward :
      (a b c : List Call) (i : ℕ) (fs gs : List ℤ)
      → ((x : ℕ) → i ≤ x → at c x ≡ at b x)
      → Placed at a b i fs gs
      → Placed at a c i fs gs
  Placed-forward a b c i [] [] k p = tt
  Placed-forward a b c i (pos f ∷ fs) (pos g ∷ gs) k p =
      (p.0, k g p.0 ∙ p.1, Placed-forward a b c (suc i) fs gs (λ x h. k x (omega arith)) p.2)
  Placed-forward a b c i (negsuc f ∷ fs) (negsuc g ∷ gs) k p =
      (p.0, Placed-forward a b c (suc i) fs gs (λ x h. k x (omega arith)) p.1)
  Placed-forward a b c i [] (g ∷ gs) k p = elim p [ ]
  Placed-forward a b c i (pos f ∷ fs) [] k p = elim p [ ]
  Placed-forward a b c i (negsuc f ∷ fs) [] k p = elim p [ ]
  Placed-forward a b c i (pos f ∷ fs) (negsuc g ∷ gs) k p = elim p [ ]
  Placed-forward a b c i (negsuc f ∷ fs) (pos g ∷ gs) k p = elim p [ ]

  -- Each descriptor that is given, from position `i` on, shows after the calls `b` the file that it
  -- named after the calls `a`.
  abbrev pub Landed : List Call → List Call → ℕ → List ℤ → Type 0
  Landed a b i [] = Unit
  Landed a b i (pos f ∷ fs) = (at b i ≡ at a f) × Landed a b (suc i) fs
  Landed a b i (negsuc _ ∷ fs) = Landed a b (suc i) fs

  module _ (oracle : Oracle) (d : Descriptors oracle at) where
    pub record PassedTwo (a b c : List Call) (i : ℕ) (fs gs : List ℤ) : Type 0 where
      pub landed : Landed a c i fs
      pub kept : (x : ℕ) → (x < i) ⊎ (i + length gs ≤ x) → at c x ≡ at b x

    clear-Step :
        (b c : List Call) (i fd : ℕ) → c ≡ b ++ clear_cloexec fd ∷ [] → (x : ℕ) → at c x ≡ at b x
    clear-Step b c i fd e x = ap (λ l. at l x) e ∙ d.flag b fd x

    dup-others :
        (b c : List Call) (i fd : ℕ)
        → (oracle b (dup3 fd i false)).err ≡ 0
        → c ≡ b ++ dup3 fd i false ∷ []
        → (x : ℕ) → x ≢ i
        → at c x ≡ at b x
    dup-others b c i fd ok e x ne =
        ap (λ l. at l x) e ∙ d.duplicate b fd i false x ok ∙ rw (differ x i ne) refl

    dup-target :
        (b c : List Call) (i fd : ℕ)
        → (oracle b (dup3 fd i false)).err ≡ 0
        → c ≡ b ++ dup3 fd i false ∷ []
        → at c i ≡ at b fd
    dup-target b c i fd ok e =
        ap (λ l. at l i) e ∙ d.duplicate b fd i false i ok ∙ rw (same_refl i) refl

    -- the call of the second pass for a descriptor that is given
    move-Step :
        (b c : List Call) (i g : ℕ) (u : Unit)
        → (if g == i then call oracle (clear_cloexec g) else call oracle (dup3 g i false)) b
          ≡ (goes u, c)
        → (at c i ≡ at b g) × ((x : ℕ) → x ≢ i → at c x ≡ at b x)
    move-Step b c i g u e = elim (Bool-cases (g == i)) [
      | inl s ↦
          let (ok, l) = call-goes oracle (clear_cloexec g) u b c (rw s at e) in
          let same : g ≡ i = (nat_beq_iff g i).0 s in
          (clear-Step b c i g l i ∙ ap (λ x. at b x) (sym same), λ x ne. clear-Step b c i g l x)
      | inr s ↦
          let (ok, l) = call-goes oracle (dup3 g i false) u b c (rw s at e) in
          (dup-target b c i g ok l, dup-others b c i g ok l)
    ]

    skip-PassedTwo :
        (a b m c : List Call) (i f g : ℕ) (fs gs : List ℤ)
        → ((x : ℕ) → x ≢ i → at m x ≡ at b x)
        → PassedTwo a m c (suc i) fs gs
        → PassedTwo a b c i (negsuc f ∷ fs) (negsuc g ∷ gs)
    skip-PassedTwo a b m c i f g fs gs others ih = record {
      landed = ih.landed;
      kept = λ x h. ih.kept x (further i (length gs) x h) ∙ others x (outside i (length gs) x h);
    }

    pub pass_two-PassedTwo :
        (a b c : List Call) (i : ℕ) (fs gs : List ℤ) (u : Unit)
        → Placed at a b i fs gs
        → pass_two oracle i gs b ≡ (goes u, c)
        → PassedTwo a b c i fs gs
    unfolding pass_two
    pass_two-PassedTwo a b c i [] [] u p e =
        done-subst (λ _ l. PassedTwo a b l i [] []) tt u b c e
          (record { landed = tt; kept = λ x h. refl })
    pass_two-PassedTwo a b c i (pos f ∷ fs) (pos g ∷ gs) u p e =
        let parts =
          bind-Parts
            (if g == i then call oracle (clear_cloexec g) else call oracle (dup3 g i false))
            (λ _. pass_two oracle (suc i) gs) b c u e in
        let (here, others) = move-Step b parts.between i g parts.value parts.first in
        let ih =
          pass_two-PassedTwo a parts.between c (suc i) fs gs u
            (Placed-forward a b parts.between (suc i) fs gs (λ x h. others x (omega arith)) p.2)
            parts.rest in
        record {
          landed = (ih.kept i (inl (omega arith)) ∙ here ∙ p.1, ih.landed);
          kept =
              λ x h. ih.kept x (further i (length gs) x h) ∙ others x (outside i (length gs) x h);
        }
    pass_two-PassedTwo a b c i (negsuc zero ∷ fs) (negsuc zero ∷ gs) u p e =
        let parts =
          bind-Parts (call_anyway oracle (close i)) (λ _. pass_two oracle (suc i) gs) b c u e in
        let l : b ++ close i ∷ [] ≡ parts.between =
          call_anyway-goes oracle (close i) _ b _ parts.first in
        let others : (x : ℕ) → x ≢ i → at parts.between x ≡ at b x =
          λ x ne. ap (λ k. at k x) (sym l) ∙ d.shut b i x ne in
        skip-PassedTwo a b parts.between c i 0 0 fs gs others (
          pass_two-PassedTwo a parts.between c (suc i) fs gs u
            (Placed-forward a b parts.between (suc i) fs gs (λ x h. others x (omega arith)) p.1)
            parts.rest)
    pass_two-PassedTwo a b c i (negsuc (suc f) ∷ fs) (negsuc (suc g) ∷ gs) u p e =
        let fd = unsigned 64 (negsuc (suc g)) in
        let parts =
          bind-Parts (call oracle (dup3 fd i false)) (λ _. pass_two oracle (suc i) gs) b c u e in
        let (ok, l) = call-goes oracle (dup3 fd i false) parts.value b parts.between parts.first in
        let others : (x : ℕ) → x ≢ i → at parts.between x ≡ at b x =
          dup-others b parts.between i fd ok l in
        skip-PassedTwo a b parts.between c i (suc f) (suc g) fs gs others (
          pass_two-PassedTwo a parts.between c (suc i) fs gs u
            (Placed-forward a b parts.between (suc i) fs gs (λ x h. others x (omega arith)) p.1)
            parts.rest)
    pass_two-PassedTwo a b c i (negsuc zero ∷ fs) (negsuc (suc g) ∷ gs) u p e = absurd (omega arith)
    pass_two-PassedTwo a b c i (negsuc (suc f) ∷ fs) (negsuc zero ∷ gs) u p e = absurd (omega arith)
    pass_two-PassedTwo a b c i [] (g ∷ gs) u p e = elim p [ ]
    pass_two-PassedTwo a b c i (pos f ∷ fs) [] u p e = elim p [ ]
    pass_two-PassedTwo a b c i (negsuc f ∷ fs) [] u p e = elim p [ ]
    pass_two-PassedTwo a b c i (pos f ∷ fs) (negsuc g ∷ gs) u p e = elim p [ ]
    pass_two-PassedTwo a b c i (negsuc f ∷ fs) (pos g ∷ gs) u p e = elim p [ ]
