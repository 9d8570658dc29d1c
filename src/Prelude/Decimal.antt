-- ===== src/Prelude/Decimal.antt =====
-- `u64`'s `Display`: the decimal digits of a number, and the number that a text of digits spells.
use Prim.Native.Nat.{ℕ, zero, suc, ◌+◌, ◌-◌, ◌*◌, ◌/◌, ◌%◌, ◌<◌, ◌^◌}
use mathlib.Core.Path.{◌≡◌, refl}
use mathlib.Core.List.{[], ◌∷◌, ◌++◌}
use native.Mathlib.Omega.{arith}
use latiq.Prelude.Tests.{ltb, if◌then◌else◌}
use latiq.Prelude.Text.{Text}

unfoldable pub digits : (fuel : ℕ) → ℕ → Text
digits zero n = []
digits (suc fuel) n =
    let rest = digits fuel (n / 10) in
    if ltb n 10 then (b'0' + n) ∷ [] else rest ++ ((b'0' + n % 10) ∷ [])

-- A number below 2 ^ 64 has at most 20 digits.
unfoldable pub decimal : ℕ → Text
unfolding digits
decimal n = digits 20 n

-- The number that digits spell after what was read before them.
value_from : ℕ → Text → ℕ
value_from acc [] = acc
value_from acc (c ∷ s) = value_from (acc * 10 + (c - b'0')) s

unfoldable pub value : Text → ℕ
unfolding value_from
value s = value_from 0 s

value_from-snoc :
    (acc : ℕ) (s : Text) (c : ℕ)
    → value_from acc (s ++ (c ∷ [])) ≡ value_from acc s * 10 + (c - b'0')
unfolding value_from
value_from-snoc acc [] c = refl
value_from-snoc acc (d ∷ s) c = value_from-snoc (acc * 10 + (d - b'0')) s c

value-digits : (fuel n : ℕ) → n < 10 ^ fuel → value (digits fuel n) ≡ n
unfolding value value_from digits
value-digits zero n h = omega arith
value-digits (suc fuel) n h = ground (
  arith,
  value-digits fuel (n / 10) (omega arith),
  value_from-snoc 0 (digits fuel (n / 10)) (b'0' + n % 10),
)

-- The digits spell the number, so that 20 of them are enough and different numbers have different digits.
pub value-decimal : (n : ℕ) → n < 2 ^ 64 → value (decimal n) ≡ n
unfolding decimal
value-decimal n h = value-digits 20 n (omega arith)
