-- ===== src/Ptracer/Strings/Read.antt =====
-- What GetString returns for a text in the memory of the traced process.
use go_sandbox.Common.{
  [], ◌∷◌, zero, suc, some, true, false, ℕ, List, length, ◌+◌, ◌++◌, ◌≡◌, arith, or_right, ap, ◌==◌,
  refl, nat_eq, ltb, ◌<◌, length-append, ◌-◌, append_assoc, ◌^◌, ◌≤◌, ◌⊎◌, ◌%◌, inl, inr, Bool,
  if◌then◌else◌,
}
use go_sandbox.Ptracer.Strings.{
  has_null, string_of, clen, overlay, VmRead, vm_error, bytes_read, chunk, vm_read_str_loop,
  read_ok, read_error, vm_read_str, get_string_with,
}
use go_sandbox.FilePaths.{take}

-- n bytes of a memory, from an address
unfoldable pub span : (ℕ → ℕ) → ℕ → ℕ → List ℕ
span m a zero = []
span m a (suc n) = m a ∷ span m (a + 1) n

span-split :
    (m : ℕ → ℕ) (a k j : ℕ)
    → span m a (k + suc j) ≡ span m a k ++ (m (a + k) ∷ span m (a + k + 1) j)
unfolding span
span-split m a zero j = grind arith
span-split m a (suc k) j = grind (arith, span-split m (a + 1) k j)

has_null-append : (xs ys : List ℕ) → has_null ys ≡ true → has_null (xs ++ ys) ≡ true
unfolding has_null
has_null-append [] ys h = h
has_null-append (x ∷ xs) ys h = or_right (x == 0) _ (has_null-append xs ys h)

clen-append : (text rest : List ℕ) → has_null text ≡ false → clen (text ++ (0 ∷ rest)) ≡ length text
unfolding has_null clen
clen-append [] rest h = refl
clen-append (x ∷ xs) rest h = ground (arith, clen-append xs rest)

take-append : (xs ys : List ℕ) → take (length xs) (xs ++ ys) ≡ xs
take-append [] ys = refl
take-append (x ∷ xs) ys = ap (λ zs. x ∷ zs) (take-append xs ys)

ltb-length : (xs ys : List ℕ) → ltb (length (xs ++ ys)) (length xs) ≡ false
ltb-length xs ys = ground (arith, length-append xs ys)

string_of-text :
    (text rest : List ℕ) → has_null text ≡ false → string_of (text ++ (0 ∷ rest)) ≡ some text
unfolding string_of
string_of-text text rest h =
    rw (clen-append text rest h, ltb-length, take-append text (0 ∷ rest)) refl

module _ (m : ℕ → ℕ) (addr k : ℕ) (IsText : has_null (span m addr k) ≡ false)
    (ends : m (addr + k) ≡ 0) where
  -- more than k bytes, with anything behind them, hold the text of length k
  string_of-span :
      (n : ℕ) → k < n → (rest : List ℕ) → string_of (span m addr n ++ rest) ≡ some (span m addr k)
  string_of-span n lt rest =
      let e : n ≡ k + suc (n - k - 1) = omega arith in
      rw (e, span-split m addr k (n - k - 1), ends, append_assoc)
        (string_of-text (span m addr k) _ IsText)

  has_null-span : (n : ℕ) → k < n → has_null (span m addr n) ≡ true
  unfolding has_null
  has_null-span n lt =
      let e : n ≡ k + suc (n - k - 1) = omega arith in
      rw (e, span-split m addr k (n - k - 1), ends) (has_null-append (span m addr k) _ refl)

overlay-nil : (xs : List ℕ) → overlay xs [] ≡ xs
overlay-nil [] = refl
overlay-nil (x ∷ xs) = refl

-- The reversed comparison of the code makes the first read as long as the buffer.
chunk-first : (r : ℕ) → r ≤ 4096 → chunk r 4096 ≡ 4096
unfolding chunk
chunk-first r le = ground arith

VmRead-cases : (v : VmRead) → ((bs : List ℕ) × (v ≡ bytes_read bs)) ⊎ ((e : ℕ) × (v ≡ vm_error e))
VmRead-cases (bytes_read bs) = inl (bs, refl)
VmRead-cases (vm_error e) = inr (e, refl)

module _ (m : ℕ → ℕ) (read : ℕ → ℕ → VmRead)
    (reads : (a l : ℕ) (bs : List ℕ) → read a l ≡ bytes_read bs → bs ≡ span m a l) where
  vm_read_str_loop-first :
      (fuel addr r : ℕ)
      → addr < 2 ^ 64
      → r ≤ 4096
      → has_null (span m addr 4096) ≡ true
      → (vm_read_str_loop 4096 read (suc fuel) addr [] r ≡ read_ok (span m addr 4096))
        ⊎ ((e : ℕ) × (vm_read_str_loop 4096 read (suc fuel) addr [] r ≡ read_error e []))
  unfolding vm_read_str_loop
  vm_read_str_loop-first fuel addr r lt le h =
      let e : (addr + 0) % 2 ^ 64 ≡ addr = omega arith in
      elim (VmRead-cases (read addr 4096)) [
        | inl (bs, eq) ↦
            let hb : has_null bs ≡ true = rw (reads addr 4096 bs eq) h in
            inl (rw (chunk-first r le, e, eq, hb) (ap read_ok (reads addr 4096 bs eq)))
        | inr (n, eq) ↦ inr (n, rw (chunk-first r le, e, eq) refl)
      ]

  vm_read_str-first :
      (fuel addr : ℕ)
      → addr < 2 ^ 64
      → has_null (span m addr 4096) ≡ true
      → (vm_read_str 4096 read (suc fuel) addr ≡ read_ok (span m addr 4096))
        ⊎ ((e : ℕ) × (vm_read_str 4096 read (suc fuel) addr ≡ read_error e []))
  unfolding vm_read_str
  vm_read_str-first fuel addr lt h =
      vm_read_str_loop-first fuel addr
        (if 4096 - addr % 4096 == 0 then 4096 else 4096 - addr % 4096) lt (ground arith) h

-- With pages of 4096 bytes, an address in a memory at which a text of fewer than 4096 bytes stands before a
-- zero byte, reads that succeed only with all the bytes that are asked for, and a peek that reads
-- beyond the zero byte: GetString returns exactly the text, whichever reads fail, and whether or
-- not process_vm_readv is in use. Any fuel is enough.
pub get_string_with-text :
    (m : ℕ → ℕ) (read : ℕ → ℕ → VmRead)
    (reads : (a l : ℕ) (bs : List ℕ) → read a l ≡ bytes_read bs → bs ≡ span m a l)
    (peek : ℕ → List ℕ) (addr k n : ℕ) (peeks : peek addr ≡ span m addr n)
    → k < n
    → addr < 2 ^ 64
    → k < 4096
    → has_null (span m addr k) ≡ false
    → m (addr + k) ≡ 0
    → (fuel : ℕ) (use_vm_readv : Bool)
    → (get_string_with 4096 read peek (suc fuel) use_vm_readv addr).0 ≡ some (span m addr k)
unfolding get_string_with
get_string_with-text m read reads peek addr k n peeks lt la lk IsText ends fuel false =
    rw (peeks, overlay-nil) (string_of-span m addr k IsText ends n lt _)
get_string_with-text m read reads peek addr k n peeks lt la lk IsText ends fuel true =
    let found = has_null-span m addr k IsText ends 4096 lk in
    elim (vm_read_str-first m read reads fuel addr la found) [
      | inl ok ↦ rw (get_string_with, ok) (string_of-span m addr k IsText ends 4096 lk _)
      | inr (e, err) ↦
          rw (get_string_with, err, peeks, overlay-nil) (string_of-span m addr k IsText ends n lt _)
    ]
