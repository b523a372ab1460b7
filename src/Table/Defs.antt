-- ===== src/Table/Defs.antt =====
-- `SELECT` and `UPDATE` over a list of rows.
use betmaxxing.Prelude.{ℕ, suc, ◌≤◌, Bool, Option, none, some, List, [], ◌∷◌, if◌then◌else◌}

module _ {ℓ} {Row : Type ℓ} where
  -- `session.scalar(select(...).where(p))`, `session.get`: the first row, if there is one
  unfoldable pub scalar : (Row → Bool) → List Row → Option Row
  scalar p [] = none
  scalar p (r ∷ rows) = if p r then some r else scalar p rows

  -- `session.scalars(select(...).where(p)).all()`
  unfoldable pub select : (Row → Bool) → List Row → List Row
  select p [] = []
  select p (r ∷ rows) = let rest = select p rows in if p r then r ∷ rest else rest

  -- `update(Row).where(p).values(f)`
  unfoldable pub update : (Row → Bool) → (Row → Row) → List Row → List Row
  update p f [] = []
  update p f (r ∷ rows) = (if p r then f r else r) ∷ update p f rows

  -- `result.rowcount` of that update
  unfoldable pub row_count : (Row → Bool) → List Row → ℕ
  row_count p [] = 0
  row_count p (r ∷ rows) = let rest = row_count p rows in if p r then suc rest else rest

-- At most one row has any given key, as a primary key or a unique constraint has it.
abbrev pub Keyed {ℓ κ} : {Row : Type ℓ} {K : Type κ} → (K → Row → Bool) → List Row → Type κ
Keyed {K} by rows = (k : K) → row_count (by k) rows ≤ 1
