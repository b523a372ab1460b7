-- ===== src/Budget/Sums.antt =====
-- Sums over the detail rows, and one transaction's effect on a day's counter and its detail.
use betmaxxing.Prelude.{
  ℕ, ◌+◌, ◌≤◌, String, ◌≡◌, refl, Bool, true, false, ◌&&◌, none, some, List, [], ◌∷◌, ◌++◌, arith,
  if◌then◌else◌, Bool-cases, Option-cases, inl, inr, eq_iff,
}
use betmaxxing.Prelude.Int.{ℤ}
use betmaxxing.Table.{
  scalar, update, row_count, scalar-update, scalar_sound, update_none, row_count_narrow_zero,
}
use betmaxxing.Budget.Defs.{
  ProviderBudgetDayRow, ProviderBudgetLedgerRow, by_day, of_day, by_id, clamped, total,
}

-- the sum of `cost` over one provider's day
abbrev pub day_cost : (ProviderBudgetLedgerRow → ℕ) → String → ℕ → ProviderBudgetLedgerRow → ℕ
day_cost cost provider day r = if of_day provider day r then cost r else 0

-- a counter of the day's row, 0 where there is none
abbrev pub day_total : (ProviderBudgetDayRow → ℕ) → String → ℕ → List ProviderBudgetDayRow → ℕ
day_total field provider day days = elim (scalar (by_day provider day) days) [
  | none ↦ 0
  | some r ↦ field r
]

pub total-append :
    (cost : ProviderBudgetLedgerRow → ℕ) (xs ys : List ProviderBudgetLedgerRow)
    → total cost (xs ++ ys) ≡ total cost xs + total cost ys
unfolding total
total-append cost [] ys = omega arith
total-append cost (x ∷ xs) ys = omega (arith, total-append cost xs ys)

-- A row that is found counts in the sum.
pub cost-le-total :
    (cost : ProviderBudgetLedgerRow → ℕ) (p : ProviderBudgetLedgerRow → Bool)
    (rows : List ProviderBudgetLedgerRow) {row : ProviderBudgetLedgerRow}
    → scalar p rows ≡ some row
    → cost row ≤ total cost rows
unfolding total scalar
cost-le-total cost p [] e = cc
cost-le-total cost p (x ∷ rows) {row} e = elim (Bool-cases (p x)) [
  | inl t ↦ let same : x ≡ row = ground arith in rw same (omega arith)
  | inr t ↦ omega (arith, cost-le-total cost p rows {row = row} (ground arith))
]

-- An update of the one row under an id changes the sum by that row's change.
pub total-update :
    (cost : ProviderBudgetLedgerRow → ℕ) (id : ℕ) (s : ProviderBudgetLedgerRow → Bool)
    (f : ProviderBudgetLedgerRow → ProviderBudgetLedgerRow) (rows : List ProviderBudgetLedgerRow)
    {row : ProviderBudgetLedgerRow}
    → row_count (by_id id) rows ≤ 1
    → scalar (by_id id) rows ≡ some row
    → s row ≡ true
    → total cost (update (λ r. by_id id r && s r) f rows) + cost row
      ≡ total cost rows + cost (f row)
unfolding total scalar update row_count
total-update cost id s f [] n e t = cc
total-update cost id s f (x ∷ rows) {row} n e t = elim (Bool-cases (by_id id x)) [
  | inl here ↦
      let same : x ≡ row = ground arith in
      let rest : update (λ r. by_id id r && s r) f rows ≡ rows =
        update_none (λ r. by_id id r && s r) f rows
          (row_count_narrow_zero (by_id id) s rows (ground arith)) in
      rw (here, rest, same, t) (omega arith)
  | inr later ↦
      let ih = total-update cost id s f rows {row = row} (ground arith) (ground arith) t in
      rw later (omega (arith, ih))
]

other_day :
    (p : String) (d : ℕ) (row : ProviderBudgetLedgerRow) (r : ProviderBudgetDayRow)
    → of_day p d row ≡ false
    → by_day p d r ≡ true
    → by_day row.provider row.day_utc r ≡ false
other_day p d row r o e =
    ground (arith, eq_iff row.provider p, eq_iff r.provider p, eq_iff r.provider row.provider)

module _ (field : ProviderBudgetDayRow → ℕ) (upd : ProviderBudgetDayRow → ProviderBudgetDayRow)
    (delta : ℤ) (cost : ProviderBudgetLedgerRow → ℕ)
    (f : ProviderBudgetLedgerRow → ProviderBudgetLedgerRow) (id : ℕ)
    (s : ProviderBudgetLedgerRow → Bool)
    (upd_key : (p : String) (d : ℕ) (r : ProviderBudgetDayRow) → by_day p d (upd r) ≡ by_day p d r)
    (upd_field : (r : ProviderBudgetDayRow) → field (upd r) ≡ clamped (field r) delta)
    (f_key : (p : String) (d : ℕ) (r : ProviderBudgetLedgerRow)
      → of_day p d (f r) ≡ of_day p d r) where
  -- The day's counter moves with its detail, and no other day's does.
  pub settle_row :
      (days : List ProviderBudgetDayRow) (details : List ProviderBudgetLedgerRow)
      (row : ProviderBudgetLedgerRow) (day_row : ProviderBudgetDayRow)
      → ((p : String) (d : ℕ) → day_total field p d days ≡ total (day_cost cost p d) details)
      → row_count (by_id id) details ≤ 1
      → scalar (by_id id) details ≡ some row
      → s row ≡ true
      → scalar (by_day row.provider row.day_utc) days ≡ some day_row
      → ((t : ℕ) → cost row ≤ t → clamped t delta + cost row ≡ t + cost (f row))
      → (p : String) (d : ℕ)
      → day_total field p d (update (by_day row.provider row.day_utc) upd days)
        ≡ total (day_cost cost p d) (update (λ r. by_id id r && s r) f details)
  settle_row days details row day_row same keyed found live there moves p d =
      let change = total-update (day_cost cost p d) id s f details {row = row} keyed found live in
      let bound = cost-le-total (day_cost cost p d) (by_id id) details {row = row} found in
      let before = same p d in
      elim (Bool-cases (of_day p d row)) [
        | inl own ↦
            let p' : p ≡ row.provider = ground (arith, eq_iff row.provider p) in
            let d' : d ≡ row.day_utc = ground arith in
            let there' : scalar (by_day p d) days ≡ some day_row = rw (p', d') there in
            let total_before : field day_row ≡ total (day_cost cost p d) details =
              rw (there', day_total) at before in
            let mine : day_cost cost p d row ≡ cost row = rw own refl in
            let mine' : day_cost cost p d (f row) ≡ cost (f row) = rw (f_key p d row, own) refl in
            rw
              (
                day_total,
                scalar-update (by_day p d) (by_day row.provider row.day_utc) upd (upd_key p d) days,
                there',
                scalar_sound (by_day row.provider row.day_utc) days there,
                upd_field day_row,
              )
              (let m = moves (field day_row) (omega (arith, total_before, mine, bound)) in
                omega (arith, change, m, total_before, mine, mine'))
        | inr other ↦
            let idle : day_cost cost p d row ≡ 0 = rw other refl in
            let idle' : day_cost cost p d (f row) ≡ 0 = rw (f_key p d row, other) refl in
            elim (Option-cases (scalar (by_day p d) days)) [
              | inl missing ↦
                  let total_before : 0 ≡ total (day_cost cost p d) details =
                    rw (missing, day_total) at before in
                  rw
                    (
                      day_total,
                      scalar-update (by_day p d) (by_day row.provider row.day_utc) upd (upd_key p d)
                          days,
                      missing,
                    )
                    (omega (arith, change, total_before, idle, idle'))
              | inr (r, e) ↦
                  let total_before : field r ≡ total (day_cost cost p d) details =
                    rw (e, day_total) at before in
                  rw
                    (
                      day_total,
                      scalar-update (by_day p d) (by_day row.provider row.day_utc) upd (upd_key p d)
                          days,
                      e,
                      other_day p d row r other (scalar_sound (by_day p d) days e),
                    )
                    (omega (arith, change, total_before, idle, idle'))
            ]
      ]
