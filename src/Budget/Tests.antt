-- ===== src/Budget/Tests.antt =====
-- The budget's theorems at concrete tables.
use betmaxxing.Prelude.{
  ◌≤◌, ◌≡◌, refl, subst, sym, true, Option, none, some, List, [], ◌∷◌, arith, ok,
}
use betmaxxing.Prelude.Int.{pos, negsuc, ◌+ℤ◌}
use betmaxxing.Budget.Defs.{
  detail_row, ProviderBudgetLedgerRow, BudgetDb, Reservation, by_id, counter, reserve, reconcile,
  release, verify_invariant, spent_today, empty_budget, day_key,
}
use betmaxxing.Table.{scalar, update, row_count}
use betmaxxing.Budget.Invariant.{BudgetInv}
use betmaxxing.Budget.Reserve.{Decided, reserve-Decided}
use betmaxxing.Budget.Audit.{
  BudgetCall, call_reserve, call_reconcile, call_release, apply, run, run-BudgetInv,
  empty-BudgetInv, audit_always_balances,
}
use betmaxxing.Budget.Once.{reconcile_idempotent}
use betmaxxing.Budget.Ceiling.{Honest, spend_within_budget}
use betmaxxing.Budget.Refund.{release-reserve}

abbrev odds : Reservation
odds = record {
  provider = "the-odds-api";
  cost = pos 3;
  request = "/sports/tennis/odds";
  now = 5;
  batch_id = none;
  scan_spent = pos 0;
  scan_budget = some (pos 20);
}

abbrev calls : List BudgetCall
calls =
    call_reserve odds
    ∷ call_reserve odds
    ∷ call_reconcile 1 (some (pos 2))
    ∷ call_release 2
    ∷ call_release 2
    ∷ call_reconcile 2 (some (negsuc 4))
    ∷ []

abbrev one_reserved : BudgetDb
one_reserved = run 5 empty_budget (call_reserve odds ∷ [])

one_reserved-BudgetInv : BudgetInv one_reserved
one_reserved-BudgetInv = run-BudgetInv 5 empty_budget (call_reserve odds ∷ []) empty-BudgetInv

reserve-Decided_example : Decided 5 odds one_reserved (reserve 5 odds one_reserved)
reserve-Decided_example = reserve-Decided 5 odds one_reserved one_reserved-BudgetInv

audit_always_balances_example :
    (verify_invariant "the-odds-api" 5 (run 5 empty_budget calls)).consistent ≡ true
audit_always_balances_example = audit_always_balances 5 calls "the-odds-api" 5

reconcile_idempotent_example :
    reconcile 1 (some (pos 9)) (reconcile 1 (some (pos 2)) one_reserved)
    ≡ reconcile 1 (some (pos 2)) one_reserved
reconcile_idempotent_example =
    reconcile_idempotent 1 (pos 2) (some (pos 9)) one_reserved one_reserved-BudgetInv

abbrev AtLeastTwo : Option ProviderBudgetLedgerRow → Type 0
AtLeastTwo none = Unit
AtLeastTwo (some row) = 2 ≤ row.reserved_cost

first_row :
    scalar (by_id 1) (run 6 empty_budget (call_reserve odds ∷ call_reserve odds ∷ [])).details
    ≡ some (detail_row 1 odds)
unfolding run apply reserve ◌+ℤ◌ row_count scalar day_key update
first_row = refl

Honest-calls : Honest 6 empty_budget calls
unfolding run apply reserve
Honest-calls = (
  tt,
  (
    tt,
    (
      (λ row e. subst AtLeastTwo e (subst AtLeastTwo (sym first_row) (omega arith))),
      (tt, (tt, ((λ row e. omega arith), tt))),
    ),
  ),
)

spend_within_budget_example : spent_today "the-odds-api" 5 (run 6 empty_budget calls) ≤ 6
spend_within_budget_example =
    spend_within_budget 6 calls "the-odds-api" 5 (omega arith) Honest-calls

-- the tables after the first reservation
abbrev after_reserve : BudgetDb
after_reserve = run 5 empty_budget (call_reserve odds ∷ [])

first_reserved : reserve 5 odds empty_budget ≡ ok (1, after_reserve)
unfolding run apply reserve ◌+ℤ◌ row_count scalar day_key
first_reserved = refl

release-reserve_example :
    counter "the-odds-api" 0 (release 1 after_reserve) ≡ counter "the-odds-api" 0 empty_budget
release-reserve_example =
    release-reserve 5 1 odds empty_budget after_reserve "the-odds-api" 0 empty-BudgetInv
      first_reserved
