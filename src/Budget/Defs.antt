-- ===== src/Budget/Defs.antt =====
-- `ProviderBudgetLedger` of src/betmaxxing/providers/budget.py over its two tables. A call is one
-- transaction: one that raises leaves the tables as they were. A UTC day is the number of its
-- midnight, which `day_key` only renders.
use betmaxxing.Prelude.{
  ℕ, ◌+◌, ◌-◌, ◌/◌, String, Bool, true, false, ◌&&◌, not, Option, none, some, List, [], ◌∷◌, ◌++◌,
  str_eq, leb, ◌==◌, if◌then◌else◌, max, Result, ok, err,
}
use betmaxxing.Prelude.Int.{ℤ, pos, pos_part, neg_part, sub_ℕ, ◌+ℤ◌, ltb_ℤ}
use betmaxxing.Table.{scalar, select, update, row_count}

pub record ProviderBudgetDayRow : Type 0 where
  pub provider : String
  pub day_utc : ℕ
  pub reserved_total : ℕ
  pub observed_total : ℕ
  pub updated_at : ℕ

pub record ProviderBudgetLedgerRow : Type 0 where
  pub id : ℕ
  pub provider : String
  pub day_utc : ℕ
  pub request : String
  pub batch_id : Option String
  pub reserved_cost : ℕ
  pub observed_cost : Option ℕ
  pub released : Bool
  pub created_at : ℕ

-- `next_id` is the autoincrement.
pub record BudgetDb : Type 0 where
  pub days : List ProviderBudgetDayRow
  pub details : List ProviderBudgetLedgerRow
  pub next_id : ℕ

-- What raised `BudgetExceeded`: the ceiling of the scan, or that of the day.
pub data BudgetExceeded : Type 0 where
  scan_budget_exceeded day_budget_exceeded : BudgetExceeded

abbrev pub empty_budget : BudgetDb
empty_budget = record { days = []; details = []; next_id = 1 }

unfoldable pub day_key : ℕ → ℕ
day_key moment = moment / 86_400_000_000

abbrev pub by_day : String → ℕ → ProviderBudgetDayRow → Bool
by_day provider day r = str_eq r.provider provider && r.day_utc == day

abbrev pub of_day : String → ℕ → ProviderBudgetLedgerRow → Bool
of_day provider day r = str_eq r.provider provider && r.day_utc == day

abbrev pub by_id : ℕ → ProviderBudgetLedgerRow → Bool
by_id id r = r.id == id

abbrev pub or_reserved : Option ℕ → ℕ → ℕ
or_reserved none reserved = reserved
or_reserved (some observed) reserved = observed

-- `BudgetEntry.effective_cost`
abbrev pub effective_cost : ProviderBudgetLedgerRow → ℕ
effective_cost r = if r.released then 0 else or_reserved r.observed_cost r.reserved_cost

-- `_counter`
unfoldable pub counter : String → ℕ → BudgetDb → ℕ
counter provider day db = elim (scalar (by_day provider day) db.days) [
  | none ↦ 0
  | some r ↦ r.reserved_total
]

abbrev pub is_some : {A : Type 0} → Option A → Bool
is_some none = false
is_some (some _) = true

abbrev pub new_day : String → ℕ → ℕ → ProviderBudgetDayRow
new_day provider day moment = record {
  provider = provider;
  day_utc = day;
  reserved_total = 0;
  observed_total = 0;
  updated_at = moment;
}

unfoldable pub ensure_day_row :
    String → ℕ → ℕ → List ProviderBudgetDayRow → List ProviderBudgetDayRow
ensure_day_row provider day moment days =
    if is_some (scalar (by_day provider day) days)
    then days
    else days ++ new_day provider day moment ∷ []

abbrev pub under_ceiling : ℕ → Option ℕ → ProviderBudgetDayRow → Bool
under_ceiling cost none r = true
under_ceiling cost (some ceiling) r = leb (r.reserved_total + cost) ceiling

abbrev pub charged : ℕ → ℕ → ProviderBudgetDayRow → ProviderBudgetDayRow
charged cost moment r = record r { reserved_total = r.reserved_total + cost; updated_at = moment }

-- `_charge`: the conditional increment, and whether it changed one row
unfoldable pub charge :
    String → ℕ → ℕ → Option ℕ → ℕ → List ProviderBudgetDayRow → Bool × List ProviderBudgetDayRow
charge provider day cost ceiling moment days =
    let fits =
      λ (r : ProviderBudgetDayRow). by_day provider day r && under_ceiling cost ceiling r in
    (row_count fits days == 1, update fits (charged cost moment) days)

-- CASE WHEN total + delta > 0 THEN total + delta ELSE 0 END
abbrev pub clamped : ℕ → ℤ → ℕ
clamped total delta = total + pos_part delta - neg_part delta

abbrev pub adjusted : ℤ → ℤ → ProviderBudgetDayRow → ProviderBudgetDayRow
adjusted delta observed_delta r = record r {
  reserved_total = clamped r.reserved_total delta;
  observed_total = clamped r.observed_total observed_delta;
}

-- `_adjust`
unfoldable pub adjust : String → ℕ → ℤ → ℤ → List ProviderBudgetDayRow → List ProviderBudgetDayRow
adjust provider day delta observed_delta days =
    update (by_day provider day) (adjusted delta observed_delta) days

-- `provider_budget_per_day or None`
abbrev pub ceiling_of : ℕ → Option ℕ
ceiling_of budget = if budget == 0 then none else some budget

-- `max(1, int(cost))`
abbrev pub estimated_cost : ℤ → ℕ
estimated_cost cost = max 1 (pos_part cost)

abbrev pub over_scan : ℤ → ℕ → Option ℤ → Bool
over_scan spent estimated none = false
over_scan spent estimated (some budget) = ltb_ℤ budget (spent +ℤ pos estimated)

-- one attempt to authorise
pub record Reservation : Type 0 where
  pub provider : String
  pub cost : ℤ
  pub request : String
  pub now : ℕ
  pub batch_id : Option String
  pub scan_spent : ℤ
  pub scan_budget : Option ℤ

abbrev pub detail_row : ℕ → Reservation → ProviderBudgetLedgerRow
detail_row id q = record {
  id = id;
  provider = q.provider;
  day_utc = day_key q.now;
  request = q.request;
  batch_id = q.batch_id;
  reserved_cost = estimated_cost q.cost;
  observed_cost = none;
  released = false;
  created_at = q.now;
}

-- `reserve`, under `settings.provider_budget_per_day`: the reservation's id and the tables
unfoldable pub reserve : ℕ → Reservation → BudgetDb → Result BudgetExceeded (ℕ × BudgetDb)
unfolding ensure_day_row charge
reserve budget_per_day q db =
    let estimated = estimated_cost q.cost in
    let day = day_key q.now in
    if over_scan q.scan_spent estimated q.scan_budget
    then err scan_budget_exceeded
    else let days = ensure_day_row q.provider day q.now db.days in
      let (done, days') = charge q.provider day estimated (ceiling_of budget_per_day) q.now days in
      if not done
      then err day_budget_exceeded
      else ok (
        db.next_id,
        record {
          days = days';
          details = db.details ++ detail_row db.next_id q ∷ [];
          next_id = db.next_id + 1;
        },
      )

abbrev pub unobserved : Option ℕ → Bool
unobserved none = true
unobserved (some _) = false

abbrev pub reconcilable : ℕ → ProviderBudgetLedgerRow → Bool
reconcilable id r = by_id id r && (unobserved r.observed_cost && not r.released)

abbrev pub observe : ℕ → ProviderBudgetLedgerRow → ProviderBudgetLedgerRow
observe cost r = record r { observed_cost = some cost }

-- `reconcile` with the figure that the provider reported
unfoldable pub reconcile_with : ℕ → ℕ → BudgetDb → BudgetDb
unfolding adjust
reconcile_with id observed db = elim (scalar (by_id id) db.details) [
  | none ↦ db
  | some row ↦
      if row_count (reconcilable id) db.details == 1
      then record db {
        details = update (reconcilable id) (observe observed) db.details;
        days =
            adjust row.provider row.day_utc (sub_ℕ observed row.reserved_cost) (pos observed)
              db.days;
      }
      else db
]

-- `reconcile`; `max(0, int(observed_cost))` is the positive part
unfoldable pub reconcile : ℕ → Option ℤ → BudgetDb → BudgetDb
unfolding reconcile_with
reconcile id none db = db
reconcile id (some observed_cost) db = reconcile_with id (pos_part observed_cost) db

abbrev pub releasable : ℕ → ProviderBudgetLedgerRow → Bool
releasable id r = by_id id r && not r.released

abbrev pub free : ProviderBudgetLedgerRow → ProviderBudgetLedgerRow
free r = record r { observed_cost = some 0; released = true }

abbrev pub or_zero : Option ℕ → ℕ
or_zero none = 0
or_zero (some n) = n

-- `release`; what the row counted for is read before it is updated
unfoldable pub release : ℕ → BudgetDb → BudgetDb
unfolding adjust
release id db = elim (scalar (by_id id) db.details) [
  | none ↦ db
  | some row ↦
      if row_count (releasable id) db.details == 1
      then record db {
        details = update (releasable id) free db.details;
        days =
            adjust row.provider row.day_utc
              (sub_ℕ 0 (or_reserved row.observed_cost row.reserved_cost))
              (sub_ℕ 0 (or_zero row.observed_cost)) db.days;
      }
      else db
]

-- `spent_today`
unfoldable pub spent_today : String → ℕ → BudgetDb → ℕ
unfolding counter
spent_today provider now db = counter provider (day_key now) db

-- `remaining_today`; `-` on ℕ stops at 0, as `max(0, ...)` does
unfoldable pub remaining_today : ℕ → String → ℕ → BudgetDb → Option ℕ
unfolding spent_today
remaining_today budget_per_day provider now db =
    if budget_per_day == 0 then none else some (budget_per_day - spent_today provider now db)

-- SELECT COALESCE(SUM(...), 0)
unfoldable pub total : (ProviderBudgetLedgerRow → ℕ) → List ProviderBudgetLedgerRow → ℕ
total cost [] = 0
total cost (r ∷ rows) = cost r + total cost rows

abbrev pub unreleased_of : String → ℕ → ProviderBudgetLedgerRow → Bool
unreleased_of provider day r = of_day provider day r && not r.released

pub record BudgetInvariant : Type 0 where
  pub counter_of_day : ℕ
  pub detail : ℕ
  pub consistent : Bool

-- `verify_invariant`
unfoldable pub verify_invariant : String → ℕ → BudgetDb → BudgetInvariant
unfolding counter total
verify_invariant provider now db =
    let day = day_key now in
    let count = counter provider day db in
    let detail =
      total (λ r. or_reserved r.observed_cost r.reserved_cost)
        (select (unreleased_of provider day) db.details) in
    record { counter_of_day = count; detail = detail; consistent = count == detail }

-- `entries_for_day`, in the order of the ids
unfoldable pub entries_for_day : ℕ → Option String → BudgetDb → List ProviderBudgetLedgerRow
entries_for_day now none db = select (λ r. r.day_utc == day_key now) db.details
entries_for_day now (some provider) db =
    if str_eq provider ""
    then select (λ r. r.day_utc == day_key now) db.details
    else select (of_day provider (day_key now)) db.details
