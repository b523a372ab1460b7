-- ===== src/Table/Keys.antt =====
-- Keys through a query: what `WHERE`, `ORDER BY` and `LIMIT` leave of a table with a unique key.
use betmaxxing.Prelude.{
  ℕ, zero, suc, ◌≤◌, ◌≡◌, refl, Bool, true, false, some, List, [], ◌∷◌, arith, All, take, sort_by,
  insert_by, Bool-cases, inl, inr,
}
use betmaxxing.Table.Defs.{scalar, select, update, row_count, Keyed}
use betmaxxing.Table.Laws.{All-map, All-both}

module _ {ℓ} {Row : Type ℓ} (q : Row → Bool) where
  pub row_count-select-le :
      (p : Row → Bool) (rows : List Row) → row_count q (select p rows) ≤ row_count q rows
  unfolding row_count select
  row_count-select-le p [] = omega arith
  row_count-select-le p (r ∷ rows) = ground (arith, row_count-select-le p rows)

  pub row_count-take-le : (n : ℕ) (rows : List Row) → row_count q (take n rows) ≤ row_count q rows
  unfolding row_count
  row_count-take-le zero rows = omega arith
  row_count-take-le (suc n) [] = omega arith
  row_count-take-le (suc n) (r ∷ rows) = ground (arith, row_count-take-le n rows)

  row_count-insert_by :
      (key : Row → ℕ) (r : Row) (rows : List Row)
      → row_count q (insert_by key r rows) ≡ row_count q (r ∷ rows)
  unfolding row_count insert_by
  row_count-insert_by key r [] = refl
  row_count-insert_by key r (x ∷ rows) = ground (arith, row_count-insert_by key r rows)

  pub row_count-sort_by :
      (key : Row → ℕ) (rows : List Row) → row_count q (sort_by key rows) ≡ row_count q rows
  unfolding row_count sort_by
  row_count-sort_by key [] = refl
  row_count-sort_by key (r ∷ rows) =
      ground (arith, row_count-insert_by key r (sort_by key rows), row_count-sort_by key rows)

  -- Rows that the condition misses.
  pub row_count_zero : (rows : List Row) → row_count q rows ≡ 0 → All (λ r. q r ≡ false) rows
  unfolding row_count
  row_count_zero [] n = tt
  row_count_zero (r ∷ rows) n = (ground arith, row_count_zero rows (ground arith))

module _ {ℓ κ} {Row : Type ℓ} {K : Type κ} (by : K → Row → Bool) (key : Row → K)
    (own : (r : Row) → by (key r) r ≡ true) where
  pub tail-Keyed :
      (x : Row) (rows : List Row) → Keyed by (x ∷ rows) → (k : K) → row_count (by k) rows ≤ 1
  unfolding row_count
  tail-Keyed x rows keyed k = let bound = keyed k in ground arith

  -- No later row has the key of the first.
  pub head-Keyed :
      (x : Row) (rows : List Row) → Keyed by (x ∷ rows) → row_count (by (key x)) rows ≡ 0
  unfolding row_count
  head-Keyed x rows keyed = let bound = keyed (key x) in ground (arith, own x)

  counted : (rows : List Row) → All (λ r. 1 ≤ row_count (by (key r)) rows) rows
  unfolding row_count
  counted [] = tt
  counted (x ∷ rows) =
      (ground (arith, own x), All-map _ _ rows (λ r h. ground arith) (counted rows))

  -- In a table with a unique key every row is the one that its key finds.
  pub Keyed-found :
      (rows : List Row) → Keyed by rows → All (λ r. scalar (by (key r)) rows ≡ some r) rows
  unfolding row_count scalar
  Keyed-found [] keyed = tt
  Keyed-found (x ∷ rows) keyed = (
    ground (arith, own x),
    All-map _ _ rows (λ r (h, n). let bound = keyed (key r) in ground arith)
        (All-both _ _ rows (Keyed-found rows (tail-Keyed x rows keyed)) (counted rows)),
  )

-- An update that takes one invariant of the rows to another.
pub All-update_to {ℓ κ μ} :
    {Row : Type ℓ} (P : Row → Type κ) (Q : Row → Type μ) (p : Row → Bool) (f : Row → Row)
    (rows : List Row)
    → ((r : Row) → p r ≡ true → P r → Q (f r))
    → ((r : Row) → P r → Q r)
    → All P rows
    → All Q (update p f rows)
unfolding update
All-update_to P Q p f [] there elsewhere h = tt
All-update_to P Q p f (r ∷ rows) there elsewhere h = elim (Bool-cases (p r)) [
  | inl e ↦ rw e (there r e h.0, All-update_to P Q p f rows there elsewhere h.1)
  | inr e ↦ rw e (elsewhere r h.0, All-update_to P Q p f rows there elsewhere h.1)
]
