-- ===== src/Budget/Ceiling.antt =====
-- A day's spend stays under its ceiling while no request costs more than its estimate.
use betmaxxing.Prelude.{
  ℕ, ◌+◌, ◌≤◌, ◌<◌, String, ◌≡◌, refl, true, ◌&&◌, not, none, some, List, [], ◌∷◌, arith, ◌==◌,
  str_eq, Bool-cases, Option-cases, inl, inr, Result, ok, err, eq_iff,
}
use betmaxxing.Prelude.Int.{pos_part}
use betmaxxing.Table.{scalar, row_count_narrow}
use betmaxxing.Budget.Defs.{
  ProviderBudgetLedgerRow, BudgetDb, BudgetExceeded, Reservation, by_id, day_key, effective_cost,
  counter, estimated_cost, reserve, reconcile, reconcile_with, observe, release, free, total,
  empty_budget, unobserved, spent_today,
}
use betmaxxing.Budget.Sums.{day_cost}
use betmaxxing.Budget.Invariant.{BudgetInv, reconcile-BudgetInv, release-BudgetInv}
use betmaxxing.Budget.Reserve.{Decided, reserve-Decided}
use betmaxxing.Budget.Sums.{total-update}
use betmaxxing.Budget.Audit.{
  BudgetCall, call_reserve, call_reconcile, call_release, kept, apply, run, apply-BudgetInv,
  empty-BudgetInv,
}

-- A request that costs no more than its estimate.
abbrev pub HonestCall : BudgetDb → BudgetCall → Type 0
HonestCall db (call_reconcile id (some cost)) =
    (row : ProviderBudgetLedgerRow)
    → scalar (by_id id) db.details ≡ some row
    → pos_part cost ≤ row.reserved_cost
HonestCall db _ = Unit

abbrev pub Honest : ℕ → BudgetDb → List BudgetCall → Type 0
Honest budget db [] = Unit
Honest budget db (c ∷ calls) = HonestCall db c × Honest budget (apply budget db c) calls

abbrev Under : ℕ → BudgetDb → Type 0
Under budget db = (p : String) (d : ℕ) → counter p d db ≤ budget

pub counter-eq-total :
    (p : String) (d : ℕ) (db : BudgetDb)
    → BudgetInv db
    → counter p d db ≡ total (day_cost effective_cost p d) db.details
unfolding counter
counter-eq-total p d db inv = inv.reserved p d

kept-Under :
    (budget : ℕ) (q : Reservation) (db : BudgetDb) (r : Result BudgetExceeded (ℕ × BudgetDb))
    → 0 < budget
    → Under budget db
    → Decided budget q db r
    → Under budget (kept db r)
kept-Under budget q db (err e) pos under h p d = under p d
kept-Under budget q db (ok (id, db')) pos under h p d =
    let moved = h.5 p d in
    let room = h.1 in
    let bound = under p d in
    elim (Bool-cases (str_eq q.provider p && day_key q.now == d)) [
      | inl same ↦ rw (moved, same) (own same)
      | inr other ↦ rw (moved, other) (omega (arith, bound))
    ]
  where
    own :
        (str_eq q.provider p && day_key q.now == d) ≡ true
        → counter p d db + estimated_cost q.cost ≤ budget
    own same =
        let pp : q.provider ≡ p = ground (arith, eq_iff q.provider p) in
        let dd : day_key q.now ≡ d = ground arith in rw (← pp, ← dd) (ground (arith, h.1))

module _ (p : String) (d id : ℕ) (db : BudgetDb) (inv : BudgetInv db) where
  reconcile_spends_less :
      (o : ℕ)
      → ((row : ProviderBudgetLedgerRow)
          → scalar (by_id id) db.details ≡ some row
          → o ≤ row.reserved_cost)
      → total (day_cost effective_cost p d) (reconcile_with id o db).details
        ≤ total (day_cost effective_cost p d) db.details
  unfolding reconcile_with
  reconcile_spends_less o honest = elim (Option-cases (scalar (by_id id) db.details)) [
    | inl missing ↦ rw (missing, reconcile_with) (omega arith)
    | inr (row, found) ↦
        let s = λ (r : ProviderBudgetLedgerRow). unobserved r.observed_cost && not r.released in
        let count = row_count_narrow (by_id id) s db.details (inv.ids id) found in
        elim (Bool-cases (unobserved row.observed_cost && not row.released)) [
          | inr dead ↦ rw (found, reconcile_with, count, dead) (omega arith)
          | inl live ↦
              rw (found, reconcile_with, count, live)
                (let change =
                    total-update (day_cost effective_cost p d) id s (observe o) db.details
                      {row = row} (inv.ids id) found live in
                  let less = observe_less o row live (honest row found) in
                  omega (arith, change, less))
        ]
  ]
    where
      observe_less :
          (o : ℕ) (row : ProviderBudgetLedgerRow)
          → (unobserved row.observed_cost && not row.released) ≡ true
          → o ≤ row.reserved_cost
          → day_cost effective_cost p d (observe o row) ≤ day_cost effective_cost p d row
      observe_less o row live h = ground arith

  release_spends_less :
      total (day_cost effective_cost p d) (release id db).details
      ≤ total (day_cost effective_cost p d) db.details
  unfolding release
  release_spends_less = elim (Option-cases (scalar (by_id id) db.details)) [
    | inl missing ↦ rw (missing, release) (omega arith)
    | inr (row, found) ↦
        let count =
          row_count_narrow (by_id id) (λ r. not r.released) db.details (inv.ids id) found in
        elim (Bool-cases (not row.released)) [
          | inr dead ↦ rw (found, release, count, dead) (omega arith)
          | inl live ↦
              rw (found, release, count, live)
                (let change =
                    total-update (day_cost effective_cost p d) id (λ r. not r.released) free
                      db.details {row = row} (inv.ids id) found live in
                  omega (arith, change, free_less row))
        ]
  ]
    where
      free_less :
          (row : ProviderBudgetLedgerRow)
          → day_cost effective_cost p d (free row) ≤ day_cost effective_cost p d row
      free_less row = ground arith

apply-Under :
    (budget : ℕ) (db : BudgetDb) (c : BudgetCall)
    → 0 < budget
    → BudgetInv db
    → HonestCall db c
    → Under budget db
    → Under budget (apply budget db c)
unfolding apply reconcile
apply-Under budget db (call_reserve q) pos inv honest under p d =
    kept-Under budget q db (reserve budget q db) pos under (reserve-Decided budget q db inv) p d
apply-Under budget db (call_reconcile id none) pos inv honest under p d = under p d
apply-Under budget db (call_reconcile id (some cost)) pos inv honest under p d =
    let db' = reconcile id (some cost) db in
    omega (
      arith,
      counter-eq-total p d db' (reconcile-BudgetInv id (some cost) db inv),
      counter-eq-total p d db inv,
      reconcile_spends_less p d id db inv (pos_part cost) honest,
      under p d,
    )
apply-Under budget db (call_release id) pos inv honest under p d = omega (
  arith,
  counter-eq-total p d (release id db) (release-BudgetInv id db inv),
  counter-eq-total p d db inv,
  release_spends_less p d id db inv,
  under p d,
)

run-Under :
    (budget : ℕ) (db : BudgetDb) (calls : List BudgetCall)
    → 0 < budget
    → BudgetInv db
    → Honest budget db calls
    → Under budget db
    → Under budget (run budget db calls)
unfolding run
run-Under budget db [] pos inv honest under = under
run-Under budget db (c ∷ calls) pos inv honest under =
    run-Under budget (apply budget db c) calls pos (apply-BudgetInv budget db c inv) honest.1
      (apply-Under budget db c pos inv honest.0 under)

empty_spends : (p : String) (d : ℕ) → counter p d empty_budget ≡ 0
unfolding counter scalar
empty_spends p d = refl

-- Under a positive daily budget, and where no reconciled request cost more than it had reserved, no
-- sequence of calls from empty tables takes a provider's spend of a day over that budget.
pub spend_within_budget :
    (budget : ℕ) (calls : List BudgetCall) (p : String) (now : ℕ)
    → 0 < budget
    → Honest budget empty_budget calls
    → spent_today p now (run budget empty_budget calls) ≤ budget
unfolding spent_today
spend_within_budget budget calls p now pos honest =
    run-Under budget empty_budget calls pos empty-BudgetInv honest
      (λ q d. omega (arith, empty_spends q d)) p (day_key now)
