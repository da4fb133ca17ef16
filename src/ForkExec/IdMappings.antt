-- ===== src/ForkExec/IdMappings.antt =====
-- The text of the ID mappings: formatIDMappings of pkg/forkexec/userns_linux.go, and a reader of such a
-- text. Texts are lists of bytes.
pub mod RoundTrip
use go_sandbox.Common.{
  zero, suc, [], ◌∷◌, none, some, ℕ, List, Option, Bool, ◌++◌, ◌+◌, ◌*◌, ◌-◌, ◌/◌, ◌%◌, ◌==◌,
  nat_eq, ltb, ◌&&◌, if◌then◌else◌, codes,
}
use go_sandbox.ForkExec.Parent.{Content, own_uid, own_gid, deny, allow, mappings}
use go_sandbox.ForkExec.Config.{IdMap}

abbrev pub last_digit : ℕ → ℕ
last_digit n = 48 + n % 10

-- strconv.Itoa of a number that is not negative: its digits, before `acc`
unfoldable pub itoa_from : ℕ → ℕ → List ℕ → List ℕ
itoa_from zero n acc = acc
itoa_from (suc fuel) n acc =
    let more = itoa_from fuel (n / 10) (last_digit n ∷ acc) in
    if n / 10 == 0 then last_digit n ∷ acc else more

-- A number has no more digits than its successor is large.
unfoldable pub itoa : ℕ → List ℕ → List ℕ
unfolding itoa_from
itoa n = itoa_from (suc n) n

unfoldable pub format_id_mappings : List IdMap → List ℕ
unfolding itoa
format_id_mappings [] = []
format_id_mappings (im ∷ ims) =
    itoa im.container_id (32 ∷ itoa im.host_id (32 ∷ itoa im.size (10 ∷ format_id_mappings ims)))

-- A reader, as the kernel documents the format: three numbers with a space between them, to the end
-- of a line or of the text.
abbrev pub is_digit : ℕ → Bool
is_digit c = ltb 47 c && ltb c 58

unfoldable pub read_digits : ℕ → List ℕ → ℕ × List ℕ
read_digits v [] = (v, [])
read_digits v (c ∷ cs) =
    let rest = read_digits (v * 10 + (c - 48)) cs in if is_digit c then rest else (v, c ∷ cs)

unfoldable pub read_number : List ℕ → Option (ℕ × List ℕ)
unfolding read_digits
read_number [] = none
read_number (c ∷ cs) = if is_digit c then some (read_digits (c - 48) cs) else none

abbrev pub then_read : {A B : Type 0} → Option (A × List ℕ) → (A → List ℕ → Option B) → Option B
then_read none k = none
then_read (some (a, cs)) k = k a cs

abbrev pub behind_space : {A : Type 0} → (List ℕ → Option A) → List ℕ → Option A
behind_space k [] = none
behind_space k (c ∷ cs) = if c == 32 then k cs else none

abbrev pub behind_line : List ℕ → Option (List ℕ)
behind_line [] = some []
behind_line (c ∷ cs) = if c == 10 then some cs else none

abbrev pub with_rest : IdMap → Option (List ℕ) → Option (IdMap × List ℕ)
with_rest im none = none
with_rest im (some cs) = some (im, cs)

unfoldable pub read_entry : List ℕ → Option (IdMap × List ℕ)
unfolding read_number
read_entry t = then_read (read_number t) (λ a. behind_space (λ u. then_read (read_number u) (λ b.
    behind_space (λ v.
      then_read (read_number v)
        (λ n w. with_rest (record { container_id = a; host_id = b; size = n }) (behind_line w))))))

abbrev pub before : Option (List IdMap) → IdMap → Option (List IdMap)
before none im = none
before (some ims) im = some (im ∷ ims)

-- The fuel bounds the number of entries.
unfoldable pub read_entries : ℕ → List ℕ → Option (List IdMap)
unfolding read_entry
read_entries fuel [] = some []
read_entries zero (c ∷ cs) = none
read_entries (suc fuel) (c ∷ cs) =
    then_read (read_entry (c ∷ cs)) (λ im rest. before (read_entries fuel rest) im)

-- The texts of writeIDMaps, for the effective ids of the parent.
unfoldable pub content_text : (euid egid : ℕ) → Content → List ℕ
unfolding itoa format_id_mappings
content_text euid egid own_uid = 48 ∷ 32 ∷ itoa euid (32 ∷ 49 ∷ [])
content_text euid egid own_gid = 48 ∷ 32 ∷ itoa egid (32 ∷ 49 ∷ [])
content_text euid egid deny = codes "deny"
content_text euid egid allow = codes "allow"
content_text euid egid (mappings ims) = format_id_mappings ims
