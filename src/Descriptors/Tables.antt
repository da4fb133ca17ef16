-- ===== src/Descriptors/Tables.antt =====
-- Laws of closing, on tables whose descriptors are all older than the next one.
use go_sandbox.Common.{
  [], ◌∷◌, false, ℕ, List, arith, ◌≤◌, ◌==◌, ◌<◌, ◌≡◌, ◌∙◌, nat_eq, same_refl, ap, Bool-cases, refl,
  inl, inr,
}
use go_sandbox.Descriptors.{HostProcess, open_fd, close_fd, without}

abbrev pub Below : ℕ → List ℕ → Type 0
Below n [] = Unit
Below n (x ∷ xs) = (x < n) × Below n xs

pub Below-mono : (m n : ℕ) (xs : List ℕ) → m ≤ n → Below m xs → Below n xs
Below-mono m n [] le b = tt
Below-mono m n (x ∷ xs) le (lt, b) = (omega arith, Below-mono m n xs le b)

pub without_self : (k : ℕ) (xs : List ℕ) → without k (k ∷ xs) ≡ without k xs
without_self k xs = rw (same_refl k) refl

without_other : (j k : ℕ) (xs : List ℕ) → (j == k) ≡ false → without k (j ∷ xs) ≡ j ∷ without k xs
without_other j k xs e = rw e refl

pub without_older : (j k : ℕ) (xs : List ℕ) → j < k → without k (j ∷ xs) ≡ j ∷ without k xs
without_older j k xs lt = without_other j k xs (ground arith)

pub without_newer : (j k : ℕ) (xs : List ℕ) → k < j → without k (j ∷ xs) ≡ j ∷ without k xs
without_newer j k xs lt = without_other j k xs (ground arith)

-- A descriptor that is not there
pub without_fresh : (n k : ℕ) (xs : List ℕ) → Below n xs → n ≤ k → without k xs ≡ xs
without_fresh n k [] b le = refl
without_fresh n k (x ∷ xs) (lt, b) le =
    without_older x k xs (omega arith) ∙ ap (λ ys. x ∷ ys) (without_fresh n k xs b le)

pub Below-without : (n k : ℕ) (xs : List ℕ) → Below n xs → Below n (without k xs)
Below-without n k [] b = tt
Below-without n k (x ∷ xs) (lt, b) = elim (Bool-cases (x == k)) [
  | inl e ↦ rw e (Below-without n k xs b)
  | inr e ↦ rw e (lt, Below-without n k xs b)
]

pub without_swap : (j k : ℕ) (xs : List ℕ) → without j (without k xs) ≡ without k (without j xs)
without_swap j k [] = refl
without_swap j k (x ∷ xs) = ground (arith, without_swap j k xs)

-- What every stretch of the code keeps: the descriptors stay older than the next one.
pub record IsTable (h : HostProcess) : Type 0 where
  pub older : Below h.next_fd h.opened

pub open_fd-IsTable : (h : HostProcess) → IsTable h → IsTable (open_fd h)
open_fd-IsTable h t = record {
  older = (omega arith, Below-mono _ _ h.opened (omega arith) t.older);
}

pub close_fd-IsTable : (fd : ℕ) (h : HostProcess) → IsTable h → IsTable (close_fd fd h)
close_fd-IsTable fd h t = record { older = Below-without _ fd h.opened t.older }

-- The second process is a later one, with the same children.
pub record Later (h h' : HostProcess) : Type 0 where
  pub table : IsTable h'
  pub grown : h.next_fd ≤ h'.next_fd
  pub same_children : h'.children ≡ h.children

pub Later-refl : (h : HostProcess) → IsTable h → Later h h
Later-refl h t = record { table = t; grown = omega arith; same_children = refl }

pub Later-open : {h h' : HostProcess} → Later h h' → Later h (open_fd h')
Later-open l = record {
  table = open_fd-IsTable _ l.table;
  grown = omega (arith, l.grown);
  same_children = l.same_children;
}

pub Later-close : (fd : ℕ) {h h' : HostProcess} → Later h h' → Later h (close_fd fd h')
Later-close fd l = record {
  table = close_fd-IsTable fd _ l.table;
  grown = l.grown;
  same_children = l.same_children;
}

pub Later-trans : {h h' h'' : HostProcess} → Later h h' → Later h' h'' → Later h h''
Later-trans l m = record {
  table = m.table;
  grown = omega (arith, l.grown, m.grown);
  same_children = m.same_children ∙ l.same_children;
}

pub without_twice : (k : ℕ) (xs : List ℕ) → without k (without k xs) ≡ without k xs
without_twice k [] = refl
without_twice k (x ∷ xs) = ground (arith, without_twice k xs)

-- The next descriptor, closed again.
pub without_next :
    (h : HostProcess) → IsTable h → without h.next_fd (h.next_fd ∷ h.opened) ≡ h.opened
without_next h t =
    without_self h.next_fd h.opened
    ∙ without_fresh h.next_fd h.next_fd h.opened t.older (omega arith)
