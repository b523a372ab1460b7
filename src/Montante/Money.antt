-- ===== src/Montante/Money.antt =====
-- `to_cents` of src/betmaxxing/challenge/montante.py. A decimal is its sign, its digits and the number
-- of them after the point, as `decimal.Decimal` has it.
use betmaxxing.Prelude.{ℕ, ◌+◌, ◌*◌, ◌/◌, ◌^◌, Bool, if◌then◌else◌}
use betmaxxing.Prelude.Int.{ℤ, pos, sub_ℕ}

pub record Decimal : Type 0 where
  pub negative : Bool
  pub digits : ℕ
  pub places : ℕ

-- digits * 10^(2 - places), rounded to the nearest integer, a half upwards
unfoldable pub half_up : ℕ → ℕ → ℕ
half_up digits places = (digits * 200 + 10 ^ places) / (2 * 10 ^ places)

abbrev pub negate : Bool → ℕ → ℤ
negate negative n = if negative then sub_ℕ 0 n else pos n

-- `value.scaleb(2).quantize(Decimal(1), rounding=ROUND_HALF_UP)`, which rounds a half away from zero
unfoldable pub to_cents : Decimal → ℤ
unfolding half_up
to_cents d = negate d.negative (half_up d.digits d.places)

-- n cents, as `cents / 100.0` is written
abbrev pub of_cents : ℕ → Decimal
of_cents n = record { negative = Bool.false; digits = n; places = 2 }
