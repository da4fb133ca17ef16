-- ===== src/Common/Int.antt =====
-- Signed integers over the native numbers, and Go's conversions between machine widths.
use Prim.Native.Nat.{ℕ, zero, suc, ◌-◌, ◌%◌, ◌^◌}
use mathlib.Core.Bool.{Bool, true, false, not}
use go_sandbox.Common.Tests.{ltb, leb, if◌then◌else◌}

-- `negsuc n` is -(n + 1).
pub data ℤ : Type 0 where
  pos : ℕ → ℤ
  negsuc : ℕ → ℤ

-- a - b, as an integer.
abbrev pub sub_ℕ : ℕ → ℕ → ℤ
sub_ℕ a b = if leb b a then pos (a - b) else negsuc (b - a - 1)

abbrev pub ltℤ : ℤ → ℤ → Bool
ltℤ (pos a) (pos b) = ltb a b
ltℤ (pos a) (negsuc b) = false
ltℤ (negsuc a) (pos b) = true
ltℤ (negsuc a) (negsuc b) = ltb b a

abbrev pub leℤ : ℤ → ℤ → Bool
leℤ a b = not (ltℤ b a)

abbrev pub predℤ : ℤ → ℤ
predℤ (pos zero) = negsuc 0
predℤ (pos (suc n)) = pos n
predℤ (negsuc n) = negsuc (suc n)

-- The bits of a word of width `w` read as a two's complement number; higher bits are dropped.
abbrev pub signed : ℕ → ℕ → ℤ
signed w n = let r = n % 2 ^ w in if ltb r (2 ^ (w - 1)) then pos r else negsuc (2 ^ w - 1 - r)

-- The bits of an integer as an unsigned word of width `w`.
abbrev pub unsigned : ℕ → ℤ → ℕ
unsigned w (pos n) = n % 2 ^ w
unsigned w (negsuc n) = 2 ^ w - 1 - n % 2 ^ w
