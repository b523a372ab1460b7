-- ===== src/Prelude/Results.antt =====
-- A call that may raise: `err e` carries the exception.

pub data Result {ℓ} (E A : Type ℓ) : Type ℓ where
  ok : A → Result E A
  err : E → Result E A
