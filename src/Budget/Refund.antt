-- ===== src/Budget/Refund.antt =====
-- A release takes back exactly what its reservation charged.
use betmaxxing.Prelude.{
  ℕ, ◌+◌, ◌<◌, String, ◌≡◌, refl, subst, false, ◌&&◌, not, none, some, List, [], ◌∷◌, arith, ◌==◌,
  str_eq, if◌then◌else◌, All, ok,
}
use betmaxxing.Table.{scalar, update, scalar-append, row_count_narrow}
use betmaxxing.Budget.Defs.{
  ProviderBudgetLedgerRow, BudgetDb, Reservation, by_id, day_key, effective_cost, counter,
  estimated_cost, reserve, release, releasable, free, total, detail_row,
}
use betmaxxing.Budget.Sums.{day_cost, total-update}
use betmaxxing.Budget.Invariant.{BudgetInv, release-BudgetInv}
use betmaxxing.Budget.Reserve.{Decided, reserve-Decided}
use betmaxxing.Budget.Ceiling.{counter-eq-total}

-- An id that is larger than every id of the table names no row.
fresh_id :
    (n : ℕ) (rows : List ProviderBudgetLedgerRow)
    → All (λ r. r.id < n) rows
    → scalar (by_id n) rows ≡ none
unfolding scalar
fresh_id n [] h = refl
fresh_id n (x ∷ rows) (h, hs) = ground (arith, h, fresh_id n rows hs)

module _ (p : String) (d id : ℕ) (db : BudgetDb) (inv : BudgetInv db)
    (row : ProviderBudgetLedgerRow) (found : scalar (by_id id) db.details ≡ some row)
    (held : row.released ≡ false) where
  -- A release of a row that was not released takes its cost out of its day.
  pub counter-release :
      counter p d (release id db) + day_cost effective_cost p d row ≡ counter p d db
  unfolding release
  counter-release =
      let change =
        total-update (day_cost effective_cost p d) id (λ r. not r.released) free db.details
          {row = row} (inv.ids id) found (rw held refl) in
      let nothing : day_cost effective_cost p d (free row) ≡ 0 = ground arith in
      omega (
        arith,
        change,
        nothing,
        details_freed,
        counter-eq-total p d (release id db) (release-BudgetInv id db inv),
        counter-eq-total p d db inv,
      )
    where
      details_freed :
          total (day_cost effective_cost p d) (release id db).details
          ≡ total (day_cost effective_cost p d) (update (releasable id) free db.details)
      details_freed =
          let count =
            row_count_narrow (by_id id) (λ r. not r.released) db.details (inv.ids id) found in
          rw (found, release, count, held) refl

pub granted :
    (budget id : ℕ) (q : Reservation) (db db' : BudgetDb)
    → BudgetInv db
    → reserve budget q db ≡ ok (id, db')
    → Decided budget q db (ok (id, db'))
granted budget id q db db' inv e = subst (Decided budget q db) e (reserve-Decided budget q db inv)

-- From consistent tables, a reservation that is granted and then released leaves every provider's counter of every day as it
-- was before.
pub release-reserve :
    (budget id : ℕ) (q : Reservation) (db db' : BudgetDb) (p : String) (d : ℕ)
    → BudgetInv db
    → reserve budget q db ≡ ok (id, db')
    → counter p d (release id db') ≡ counter p d db
release-reserve budget id q db db' p d inv e =
    let h = granted budget id q db db' inv e in
    let found : scalar (by_id id) db'.details ≡ some (detail_row id q) =
      rw
        (
          h.4,
          scalar-append (by_id id) db.details (detail_row id q ∷ []),
          h.3,
          fresh_id db.next_id db.details inv.fresh,
        )
        (unfold scalar in ground arith) in
    let back = counter-release p d id db' h.2 (detail_row id q) found refl in
    omega (arith, back, h.5 p d, cost_of_row id q)
  where
    cost_of_row :
        (id : ℕ) (q : Reservation)
        → day_cost effective_cost p d (detail_row id q)
          ≡ (if str_eq q.provider p && day_key q.now == d then estimated_cost q.cost else 0)
    cost_of_row id q = refl
