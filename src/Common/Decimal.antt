-- ===== src/Common/Decimal.antt =====
-- `std::to_string` of an unsigned number, and the digits that `std::stoull` reads.
use Prim.Native.Nat.{ℕ, zero, suc, ◌+◌, ◌-◌, ◌*◌, ◌/◌, ◌%◌, ◌<◌}
use mathlib.Core.Path.{◌≡◌}
use mathlib.Core.Logic.{◌≢◌}
use mathlib.Core.Bool.{Bool, true, ◌&&◌}
use mathlib.Core.List.{[], ◌∷◌}
use native.Mathlib.Omega.{arith}
use tiny_kv.Common.Tests.{leb, ◌==◌, if◌then◌else◌}
use tiny_kv.Common.Lists.{Bytes, All}

-- The digits of a positive number, most significant first; a round for each digit.
unfoldable pub digits : ℕ → ℕ → Bytes → Bytes
digits zero n out = out
digits (suc fuel) n out =
    let rest = digits fuel (n / 10) ((b'0' + n % 10) ∷ out) in if n == 0 then out else rest

unfoldable pub to_string : ℕ → Bytes
unfolding digits
to_string n = if n == 0 then b'0' ∷ [] else digits (suc n) n []

-- `std::isdigit` on an unsigned char
abbrev pub is_digit : ℕ → Bool
is_digit c = leb b'0' c && leb c b'9'

-- the number that digits spell behind `n`
unfoldable pub value : ℕ → Bytes → ℕ
value n [] = n
value n (c ∷ s) = value (n * 10 + (c - b'0')) s

abbrev pub IsDigits : Bytes → Type 0
IsDigits = All (λ c. is_digit c ≡ true)

value-digits : (fuel n : ℕ) (out : Bytes) → n < fuel → value 0 (digits fuel n out) ≡ value n out
unfolding digits value
value-digits zero n out h = absurd (omega arith)
value-digits (suc fuel) n out h = ground (arith, value-digits fuel (n / 10) ((b'0' + n % 10) ∷ out))

digits-IsDigits : (fuel n : ℕ) (out : Bytes) → IsDigits out → IsDigits (digits fuel n out)
unfolding digits
digits-IsDigits zero n out h = h
digits-IsDigits (suc fuel) n out h =
    ground (arith, digits-IsDigits fuel (n / 10) ((b'0' + n % 10) ∷ out))

digits-cons : (fuel n : ℕ) (c : ℕ) (out : Bytes) → digits fuel n (c ∷ out) ≢ []
unfolding digits
digits-cons zero n c out = λ e. cc
digits-cons (suc fuel) n c out = ground (arith, digits-cons fuel (n / 10) (b'0' + n % 10) (c ∷ out))

-- Printing and reading back gives the number; the print is one or more digits.
pub to_string_lem :
    (n : ℕ) → (value 0 (to_string n) ≡ n) × IsDigits (to_string n) × (to_string n ≢ [])
unfolding to_string value digits
to_string_lem n = (
  ground (arith, value-digits n (n / 10) ((b'0' + n % 10) ∷ [])),
  ground (arith, digits-IsDigits n (n / 10) ((b'0' + n % 10) ∷ [])),
  ground (arith, digits-cons n (n / 10) (b'0' + n % 10) []),
)
