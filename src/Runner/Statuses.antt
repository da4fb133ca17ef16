-- ===== src/Runner/Statuses.antt =====
-- The texts of the statuses, and the units of a size.
use go_sandbox.Common.{ℕ, ◌≤◌, ◌≡◌, refl, arith}
use go_sandbox.Common.Int.{pos, negsuc}
use go_sandbox.Runner.{Status, invalid, status_code, status_string}

-- The text of every number outside the table is that of `invalid`.
pub status_string_out_of_range :
    ((n : ℕ) → 9 ≤ n → status_string (pos n) ≡ status_string (pos (status_code invalid)))
    × ((n : ℕ) → status_string (negsuc n) ≡ status_string (pos (status_code invalid)))
unfolding status_string
status_string_out_of_range = (λ n h. ground arith, λ n. refl)

-- The number of a status determines it.
pub status_code_injective : (a b : Status) → status_code a ≡ status_code b → a ≡ b
status_code_injective a b h = ground arith
