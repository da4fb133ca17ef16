-- ===== src/ForkExec/IdMappings/RoundTrip.antt =====
-- The ID mappings are read as they were written.
use go_sandbox.Common.{
  zero, suc, [], ◌∷◌, none, some, true, false, ℕ, List, Option, Bool-cases, Option-cases, inl, inr,
  ◌≡◌, ◌≤◌, ◌+◌, ◌*◌, ◌-◌, ◌/◌, ◌%◌, ◌==◌, nat_eq, arith, refl, ap, length, ◌∙◌,
}
use go_sandbox.ForkExec.Config.{IdMap, Runner}
use go_sandbox.ForkExec.Parent.{uid_content, gid_content}
use go_sandbox.ForkExec.IdMappings.{
  last_digit, itoa, itoa_from, format_id_mappings, is_digit, read_digits, read_number, read_entry,
  read_entries, before, content_text,
}

last_digit-is_digit : (d : ℕ) → is_digit (last_digit d) ≡ true
last_digit-is_digit d = ground arith

last_digit-value : (d : ℕ) → last_digit d - 48 ≡ d % 10
last_digit-value d = omega arith

read_digits-digit :
    (v d : ℕ) (cs : List ℕ) → read_digits v (last_digit d ∷ cs) ≡ read_digits (v * 10 + d % 10) cs
unfolding read_digits
read_digits-digit v d cs = rw (last_digit-is_digit d, last_digit-value d) refl

read_number-digit :
    (d : ℕ) (cs : List ℕ) → read_number (last_digit d ∷ cs) ≡ some (read_digits (d % 10) cs)
unfolding read_number
read_number-digit d cs = rw (last_digit-is_digit d, last_digit-value d) refl

one_digit : (n : ℕ) → (n / 10 == 0) ≡ true → n % 10 ≡ n
one_digit n b = ground arith

all_digits : (n : ℕ) → n / 10 * 10 + n % 10 ≡ n
all_digits n = omega arith

read_number-itoa_from :
    (fuel n : ℕ) (acc : List ℕ)
    → n ≤ fuel
    → read_number (itoa_from (suc fuel) n acc) ≡ some (read_digits n acc)
unfolding itoa_from
read_number-itoa_from zero zero acc le = read_number-digit zero acc
read_number-itoa_from zero (suc n) acc le = absurd (omega arith)
read_number-itoa_from (suc fuel) n acc le = elim (Bool-cases (n / 10 == 0)) [
  | inl b ↦ rw b (read_number-digit n acc ∙ ap (λ v. some (read_digits v acc)) (one_digit n b))
  | inr b ↦ rw b (
      read_number-itoa_from fuel (n / 10) (last_digit n ∷ acc) (omega arith)
      ∙ ap some (read_digits-digit (n / 10) n acc ∙ ap (λ v. read_digits v acc) (all_digits n)))
]

-- What stands behind a number begins with no digit.
abbrev Ends : List ℕ → Type 0
Ends [] = Unit
Ends (c ∷ cs) = is_digit c ≡ false

read_number-itoa : (n : ℕ) (acc : List ℕ) → Ends acc → read_number (itoa n acc) ≡ some (n, acc)
unfolding itoa read_digits
read_number-itoa n [] h = read_number-itoa_from n n [] (omega arith)
read_number-itoa n (c ∷ cs) h = read_number-itoa_from n n (c ∷ cs) (omega arith) ∙ rw h refl

read_entry-line :
    (im : IdMap) (rest : List ℕ)
    → read_entry (itoa im.container_id (32 ∷ itoa im.host_id (32 ∷ itoa im.size (10 ∷ rest))))
      ≡ some (im, rest)
unfolding read_entry
read_entry-line im rest =
    let last = 10 ∷ rest in
    let middle = 32 ∷ itoa im.size last in
    let first = 32 ∷ itoa im.host_id middle in
    rw
      (
        read_number-itoa im.container_id first refl,
        read_number-itoa im.host_id middle refl,
        read_number-itoa im.size last refl,
      )
      refl

read_entries-suc :
    (fuel : ℕ) (t rest : List ℕ) (im : IdMap)
    → read_entry t ≡ some (im, rest)
    → read_entries (suc fuel) t ≡ before (read_entries fuel rest) im
unfolding read_entries read_entry read_number
read_entries-suc fuel [] rest im e = cc
read_entries-suc fuel (c ∷ cs) rest im e = rw e refl

read_entries-format_id_mappings :
    (fuel : ℕ) (ims : List IdMap)
    → length ims ≤ fuel
    → read_entries fuel (format_id_mappings ims) ≡ some ims
unfolding format_id_mappings read_entries
read_entries-format_id_mappings fuel [] le = refl
read_entries-format_id_mappings zero (im ∷ ims) le = absurd (omega arith)
read_entries-format_id_mappings (suc fuel) (im ∷ ims) le =
    read_entries-suc fuel (format_id_mappings (im ∷ ims)) (format_id_mappings ims) im
      (read_entry-line im (format_id_mappings ims))
    ∙ ap (λ o. before o im) (read_entries-format_id_mappings fuel ims (omega arith))

abbrev own_map : ℕ → IdMap
own_map id = record { container_id = 0; host_id = id; size = 1 }

read_entry-own : (id : ℕ) → read_entry (48 ∷ 32 ∷ itoa id (32 ∷ 49 ∷ [])) ≡ some (own_map id, [])
unfolding read_entry
read_entry-own id = rw (read_number-itoa id (32 ∷ 49 ∷ []) refl) refl

-- The mappings that a runner asks for: the ones it names, or the own id alone.
abbrev pub asked_maps : ℕ → Option (List IdMap) → List IdMap
asked_maps id none = own_map id ∷ []
asked_maps id (some ims) = ims

read_own :
    (fuel id : ℕ)
    → 1 ≤ fuel
    → read_entries fuel (48 ∷ 32 ∷ itoa id (32 ∷ 49 ∷ [])) ≡ some (own_map id ∷ [])
unfolding read_entries
read_own (suc fuel) id le = rw (read_entry-own id) refl
read_own zero id le = absurd (omega arith)

uid_content-read :
    (r : Runner) (euid egid fuel : ℕ)
    → length (asked_maps euid r.uid_mappings) ≤ fuel
    → read_entries fuel (content_text euid egid (uid_content r))
      ≡ some (asked_maps euid r.uid_mappings)
unfolding content_text uid_content
uid_content-read r euid egid fuel le = elim (Option-cases r.uid_mappings) [
  | inl e ↦ rw e (read_own fuel euid (rw e at le))
  | inr (ims, e) ↦ rw e (read_entries-format_id_mappings fuel ims (rw e at le))
]

gid_content-read :
    (r : Runner) (euid egid fuel : ℕ)
    → length (asked_maps egid r.gid_mappings) ≤ fuel
    → read_entries fuel (content_text euid egid (gid_content r))
      ≡ some (asked_maps egid r.gid_mappings)
unfolding content_text gid_content
gid_content-read r euid egid fuel le = elim (Option-cases r.gid_mappings) [
  | inl e ↦ rw e (read_own fuel egid (rw e at le))
  | inr (ims, e) ↦ rw e (read_entries-format_id_mappings fuel ims (rw e at le))
]

-- What the parent writes to uid_map and gid_map is read, with fuel for the number of entries, as the
-- mappings that the runner asks for.
pub content_text-asked_maps :
    (r : Runner) (euid egid fuel : ℕ)
    → length (asked_maps euid r.uid_mappings) ≤ fuel
    → length (asked_maps egid r.gid_mappings) ≤ fuel
    → (read_entries fuel (content_text euid egid (uid_content r))
        ≡ some (asked_maps euid r.uid_mappings))
      × (read_entries fuel (content_text euid egid (gid_content r))
          ≡ some (asked_maps egid r.gid_mappings))
content_text-asked_maps r euid egid fuel u g =
    (uid_content-read r euid egid fuel u, gid_content-read r euid egid fuel g)
