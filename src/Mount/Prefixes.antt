-- ===== src/Mount/Prefixes.antt =====
-- The directories that are made for a mount point.
use go_sandbox.Common.{
  [], ◌∷◌, ℕ, ◌≡◌, ◌++◌, ap, inl, append-nil, ◌∙◌, append_assoc, sym, subst, Bool-cases, inr, ◌==◌,
  nat_eq, nat_beq_iff, List, arith, ◌≢◌, ◌↔◌, ◌⊎◌, refl,
}
use go_sandbox.Mount.{path_prefix, slash_prefixes}
use go_sandbox.ForkExec.Config.{CString}
use go_sandbox.Common.Explore.{Among}

-- `p` is `before` with more bytes, and a slash follows it in `before ++ rest`.
abbrev pub Cut : CString → CString → CString → Type 0
Cut before rest p = (a : CString) × (z : CString) × (rest ≡ a ++ 47 ∷ z) × (p ≡ before ++ a)

Cut-later :
    (before : CString) (c : ℕ) (cs p : CString)
    → Cut (before ++ c ∷ []) cs p
    → Cut before (c ∷ cs) p
Cut-later before c cs p (a, z, e, q) =
    (c ∷ a, z, ap (λ l. c ∷ l) e, q ∙ append_assoc before (c ∷ []) a)

first-or-later :
    (before cs p : CString) (c : ℕ)
    → (Among p (slash_prefixes (before ++ c ∷ []) cs) → Cut (before ++ c ∷ []) cs p)
    → Among p (before ∷ slash_prefixes (before ++ c ∷ []) cs)
    → c ≡ 47
    → Cut before (c ∷ cs) p
first-or-later before cs p c ih (inl e) q =
    ([], cs, ap (λ x. x ∷ cs) q, e ∙ sym (append-nil before))
first-or-later before cs p c ih (inr n) q = Cut-later before c cs p (ih n)

slash_prefixes_sound :
    (before cs p : CString) → Among p (slash_prefixes before cs) → Cut before cs p
unfolding slash_prefixes
slash_prefixes_sound before [] p m = elim m [ ]
slash_prefixes_sound before (c ∷ cs) p m = elim (Bool-cases (c == 47)) [
  | inr b ↦
      Cut-later before c cs p
        (slash_prefixes_sound (before ++ c ∷ []) cs p (rw (b, slash_prefixes) at m))
  | inl b ↦
      first-or-later before cs p c (slash_prefixes_sound (before ++ c ∷ []) cs p)
        (rw (b, slash_prefixes) at m) ((nat_beq_iff c 47).0 b)
]

slash_prefixes_complete :
    (before a z : CString) → Among (before ++ a) (slash_prefixes before (a ++ 47 ∷ z))
unfolding slash_prefixes
slash_prefixes_complete before [] z = inl (append-nil before)
slash_prefixes_complete before (c ∷ a) z =
    let ih = slash_prefixes_complete (before ++ c ∷ []) a z in
    let here =
      subst (λ x. Among x (slash_prefixes (before ++ c ∷ []) (a ++ 47 ∷ z)))
        (append_assoc before (c ∷ []) a) ih in
    elim (Bool-cases (c == 47)) [
      | inl b ↦ rw (b, slash_prefixes) (inr here)
      | inr b ↦ rw (b, slash_prefixes) here
    ]

-- a directory above the path: a slash follows it
abbrev pub Above : CString → CString → Type 0
Above path p = (p ≢ []) × (z : CString) × (p ++ 47 ∷ z ≡ path)

Among-append :
    {A : Type 0} (x : A) (xs ys : List A) → Among x (xs ++ ys) ↔ (Among x xs ⊎ Among x ys)
Among-append x [] ys = (inr, λ h. elim h [ inl m ↦ elim m [ ] | inr m ↦ m ])
Among-append x (y ∷ ys') ys =
    let ih = Among-append x ys' ys in
    (
      λ h. elim h [
        | inl e ↦ inl (inl e)
        | inr m ↦ elim (ih.0 m) [ inl n ↦ inl (inr n) | inr n ↦ inr n ]
      ],
      λ h. elim h [
        | inl k ↦ elim k [ inl e ↦ inl e | inr n ↦ inr (ih.1 (inl n)) ]
        | inr n ↦ inr (ih.1 (inr n))
      ],
    )

Above-slash_prefixes :
    (c : ℕ) (cs p : CString) → Above (c ∷ cs) p → Among p (slash_prefixes (c ∷ []) cs)
Above-slash_prefixes c cs [] (n, z, e) = absurd (n refl)
Above-slash_prefixes c cs (d ∷ a) (n, z, e) =
    let same_head : d ≡ c = cc in
    let same_tail : a ++ 47 ∷ z ≡ cs = cc in
    subst (λ x. Among (x ∷ a) (slash_prefixes (c ∷ []) cs)) (sym same_head)
      (subst (λ l. Among (c ∷ a) (slash_prefixes (c ∷ []) l)) same_tail
        (slash_prefixes_complete (c ∷ []) a z))

Cut-Above : (c : ℕ) (cs p : CString) → Cut (c ∷ []) cs p → Above (c ∷ cs) p
Cut-Above c cs p (a, z, e, q) =
    (λ h. ground (arith, q, h), z, ap (λ x. x ++ 47 ∷ z) q ∙ ap (λ l. c ∷ l) (sym e))

-- The paths that are made for a mount point are the mount point and every directory above it, the
-- root left out, and no other.
pub path_prefix-Above :
    (c : ℕ) (cs p : CString) → Among p (path_prefix (c ∷ cs)) ↔ ((p ≡ c ∷ cs) ⊎ Above (c ∷ cs) p)
unfolding path_prefix
path_prefix-Above c cs p =
    let both = Among-append p (slash_prefixes (c ∷ []) cs) ((c ∷ cs) ∷ []) in
    (
      λ m. elim (both.0 m) [
        | inl n ↦ inr (Cut-Above c cs p (slash_prefixes_sound (c ∷ []) cs p n))
        | inr n ↦ elim n [ inl e ↦ inl e | inr f ↦ elim f [ ] ]
      ],
      λ h. elim h [
        | inl e ↦ both.1 (inr (inl e))
        | inr a ↦ both.1 (inl (Above-slash_prefixes c cs p a))
      ],
    )
