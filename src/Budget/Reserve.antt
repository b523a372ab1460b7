-- ===== src/Budget/Reserve.antt =====
-- `reserve` keeps the daily counter equal to its detail, and refuses exactly past a ceiling.
use betmaxxing.Prelude.{
  ℕ, ◌+◌, ◌≤◌, ◌<◌, String, ◌≡◌, refl, ap, sym, ◌∙◌, ◌≢◌, Bool, true, false, ◌&&◌, ◌||◌, not, none,
  some, List, [], ◌∷◌, ◌++◌, arith, str_eq, leb, ◌==◌, if◌then◌else◌, Bool-cases, Option-cases, inl,
  inr, All, All-append, Result, ok, err,
}
use betmaxxing.Table.{scalar, row_count, row_count-update, append-Keyed, All-map}
use betmaxxing.Budget.Defs.{
  ProviderBudgetDayRow, ProviderBudgetLedgerRow, BudgetDb, BudgetExceeded, Reservation, by_day,
  by_id, day_key, effective_cost, ensure_day_row, under_ceiling, charged, charge, ceiling_of,
  estimated_cost, detail_row, reserve, total, counter, scan_budget_exceeded, day_budget_exceeded,
  over_scan,
}
use betmaxxing.Budget.Sums.{day_cost, day_total, total-append}
use betmaxxing.Budget.Invariant.{BudgetInv, by_day_key, seen_cost, days_kept}
use betmaxxing.Budget.Charge.{
  ensured, ensure-day_total, ensure-keys, ensure-has_day, charge-exact, charge-day_total,
}

fresh_none :
    (n : ℕ) (rows : List ProviderBudgetLedgerRow)
    → All (λ r. r.id < n) rows
    → scalar (by_id n) rows ≡ none
unfolding scalar
fresh_none n [] h = refl
fresh_none n (x ∷ rows) h = ground (arith, h.0, fresh_none n rows h.1)

-- Whether an attempt of this estimate fits under the day's budget; a budget of 0 is no ceiling.
abbrev pub has_room : ℕ → ℕ → ℕ → Bool
has_room budget spent estimated = budget == 0 || leb (spent + estimated) budget

-- What each outcome of `reserve` says of the tables before it and after it.
abbrev pub Decided : ℕ → Reservation → BudgetDb → Result BudgetExceeded (ℕ × BudgetDb) → Type 0
Decided budget q db (err scan_budget_exceeded) =
    over_scan q.scan_spent (estimated_cost q.cost) q.scan_budget ≡ true
Decided budget q db (err day_budget_exceeded) =
    (over_scan q.scan_spent (estimated_cost q.cost) q.scan_budget ≡ false)
    × (has_room budget (counter q.provider (day_key q.now) db) (estimated_cost q.cost) ≡ false)
Decided budget q db (ok (id, db')) =
    (over_scan q.scan_spent (estimated_cost q.cost) q.scan_budget ≡ false)
    × (has_room budget (counter q.provider (day_key q.now) db) (estimated_cost q.cost) ≡ true)
    × BudgetInv db'
    × (id ≡ db.next_id)
    × (db'.details ≡ db.details ++ detail_row id q ∷ [])
    × ((p : String) (d : ℕ)
        → counter p d db'
          ≡ counter p d db
            + (if str_eq q.provider p && day_key q.now == d then estimated_cost q.cost else 0))

counter-day_total :
    (p : String) (d : ℕ) (db : BudgetDb)
    → counter p d db ≡ day_total (λ r. r.reserved_total) p d db.days
unfolding counter
counter-day_total p d db = refl

module _ (budget : ℕ) (q : Reservation) (db : BudgetDb) (inv : BudgetInv db) where
  estimated : ℕ
  estimated = estimated_cost q.cost

  day : ℕ
  day = day_key q.now

  days : List ProviderBudgetDayRow
  days = ensure_day_row q.provider day q.now db.days

  reserved_db : BudgetDb
  reserved_db = record {
    days = (charge q.provider day estimated (ceiling_of budget) q.now days).1;
    details = db.details ++ detail_row db.next_id q ∷ [];
    next_id = db.next_id + 1;
  }

  module _ (r : ProviderBudgetDayRow) (found : scalar (by_day q.provider day) days ≡ some r) where
    spent_of_row : r.reserved_total ≡ counter q.provider day db
    unfolding days estimated day counter
    spent_of_row =
        let before =
          ensure-day_total q.provider day q.now db.days (λ x. x.reserved_total) refl q.provider
            day in
        let at_row : day_total (λ x. x.reserved_total) q.provider day days ≡ r.reserved_total =
          rw (day_total, found) refl in
        sym at_row ∙ before

    room_of_row :
        under_ceiling estimated (ceiling_of budget) r
        ≡ has_room budget (counter q.provider day db) estimated
    room_of_row = ground (arith, spent_of_row)

    module _ (room : under_ceiling estimated (ceiling_of budget) r ≡ true) where
      counter-reserved :
          (p : String) (d : ℕ)
          → counter p d reserved_db
            ≡ counter p d db + (if str_eq q.provider p && day == d then estimated else 0)
      unfolding reserved_db counter days
      counter-reserved p d =
          charge-day_total q.provider day estimated q.now (ceiling_of budget) days
            (ensure-keys q.provider day q.now db.days inv.day_keys) r found (λ x. x.reserved_total)
            estimated (λ x. refl) room p d
          ∙ ap (λ n. n + (if str_eq q.provider p && day == d then estimated else 0))
              (ensure-day_total q.provider day q.now db.days (λ x. x.reserved_total) refl p d)

      charged_kept :
          (p : String) (d : ℕ)
          → scalar (by_day p d) days ≢ none
          → scalar (by_day p d) (charge q.provider day estimated (ceiling_of budget) q.now days).1
            ≢ none
      unfolding charge
      charged_kept p d h = days_kept _ (charged estimated q.now) p d days (λ p d x. refl) h

      reserved_db-BudgetInv : BudgetInv reserved_db
      unfolding reserved_db charge counter day days estimated
      reserved_db-BudgetInv = record {
        ids =
            append-Keyed by_id (detail_row db.next_id q) db.next_id db.details (λ k e. ground arith)
              (fresh_none db.next_id db.details inv.fresh) inv.ids;
        fresh =
            All-append _ db.details _ (All-map _ _ db.details (λ x h. omega arith) inv.fresh)
              (omega arith, tt);
        day_keys = λ k.
            rw (row_count-update (by_day_key k) _ (charged estimated q.now) (λ x. refl) days)
              (ensure-keys q.provider day q.now db.days inv.day_keys k);
        has_day =
            All-append _ db.details _
              (All-map _ _ db.details
                (λ x h.
                  charged_kept x.provider x.day_utc
                    (ensure-has_day q.provider day q.now db.days x.provider x.day_utc h))
                inv.has_day)
              (charged_kept q.provider day (ensured q.provider day q.now db.days), tt);
        reserved = λ p d.
            let before = inv.reserved p d in
            let moved = counter-reserved p d in
            let added =
              total-append (day_cost effective_cost p d) db.details
                (detail_row db.next_id q ∷ []) in
            rw added (moved ∙ unfold total in omega (arith, before));
        observed = λ p d.
            let before = inv.observed p d in
            let moved =
              charge-day_total q.provider day estimated q.now (ceiling_of budget) days
                (ensure-keys q.provider day q.now db.days inv.day_keys) r found
                (λ x. x.observed_total) 0 (λ x. omega arith) room p d in
            let same =
              ensure-day_total q.provider day q.now db.days (λ x. x.observed_total) refl p d in
            let added =
              total-append (day_cost seen_cost p d) db.details (detail_row db.next_id q ∷ []) in
            rw added (moved ∙ unfold total in ground (arith, before, same));
      }

reserve_lem :
    (budget : ℕ) (q : Reservation) (db : BudgetDb) (inv : BudgetInv db)
    → reserve budget q db ≡ (
        if over_scan q.scan_spent (estimated_cost q.cost) q.scan_budget
        then err scan_budget_exceeded
        else if not
            (charge q.provider
              (day budget q db inv)
              (estimated budget q db inv)
              (ceiling_of budget)
              q.now
              (days budget q db inv)).0
        then err day_budget_exceeded
        else ok (db.next_id, reserved_db budget q db inv))
unfolding reserve reserved_db days day estimated
reserve_lem budget q db inv = refl

days-keys :
    (budget : ℕ) (q : Reservation) (db : BudgetDb) (inv : BudgetInv db) (k : String × ℕ)
    → row_count (by_day_key k) (days budget q db inv) ≤ 1
unfolding days
days-keys budget q db inv = ensure-keys q.provider (day budget q db inv) q.now db.days inv.day_keys

module _ (budget : ℕ) (q : Reservation) (db : BudgetDb) (inv : BudgetInv db)
    (r : ProviderBudgetDayRow)
    (found : scalar (by_day q.provider (day budget q db inv)) (days budget q db inv) ≡ some r)
    (under : over_scan q.scan_spent (estimated_cost q.cost) q.scan_budget ≡ false) where
  Decided-by_row : Decided budget q db (
      if not
        (charge q.provider
          (day budget q db inv)
          (estimated budget q db inv)
          (ceiling_of budget)
          q.now
          (days budget q db inv)).0
      then err day_budget_exceeded
      else ok (db.next_id, reserved_db budget q db inv))
  Decided-by_row =
      rw
        (charge-exact q.provider (day budget q db inv) (estimated budget q db inv) q.now
          (ceiling_of budget) (days budget q db inv) (days-keys budget q db inv) r found)
        (elim (Bool-cases (under_ceiling (estimated budget q db inv) (ceiling_of budget) r)) [
          | inl room ↦ rw room (
            under,
            (unfold estimated day in sym (room_of_row budget q db inv r found) ∙ room),
            reserved_db-BudgetInv budget q db inv r found room,
            refl,
            (unfold reserved_db in refl),
            (unfold estimated day in counter-reserved budget q db inv r found room),
          )
          | inr full ↦
              rw full
                (under, (unfold estimated day in sym (room_of_row budget q db inv r found) ∙ full))
        ])

-- On consistent tables, `reserve` refuses exactly an attempt that passes the ceiling of its scan or of its day. One that
-- it authorises is charged to its own day alone, by its estimate, and recorded with it, and leaves
-- the tables consistent.
pub reserve-Decided :
    (budget : ℕ) (q : Reservation) (db : BudgetDb)
    → BudgetInv db
    → Decided budget q db (reserve budget q db)
reserve-Decided budget q db inv =
    rw (reserve_lem budget q db inv)
      (elim (Bool-cases (over_scan q.scan_spent (estimated_cost q.cost) q.scan_budget)) [
        | inl over ↦ rw over over
        | inr under ↦
            rw under
              (elim (Option-cases
                (scalar (by_day q.provider (day budget q db inv)) (days budget q db inv))) [
                  | inl missing ↦ absurd (
                      unfold days in ensured q.provider (day budget q db inv) q.now db.days missing)
                  | inr (r, found) ↦ Decided-by_row budget q db inv r found under
                ])
      ])
