-- ===== src/Budget/Invariant.antt =====
-- The daily counter equals the detail that it summarises, after any sequence of calls.
use betmaxxing.Prelude.{
  ℕ, ◌+◌, ◌≤◌, ◌<◌, String, ◌≡◌, refl, ap, ◌≢◌, Bool, true, ◌&&◌, not, Option, none, some, List,
  arith, ◌==◌, if◌then◌else◌, Bool-cases, Option-cases, inl, inr, All,
}
use betmaxxing.Prelude.Int.{ℤ, pos, pos_part, sub_ℕ}
use betmaxxing.Table.{
  scalar, update, Keyed, scalar-update, row_count-update, row_count_narrow, All-update, All-map,
  All-scalar,
}
use betmaxxing.Budget.Defs.{
  ProviderBudgetDayRow, ProviderBudgetLedgerRow, BudgetDb, by_day, of_day, by_id, effective_cost,
  clamped, adjusted, adjust, observe, reconcile_with, reconcile, free, release, total, unobserved,
  or_reserved, or_zero,
}
use betmaxxing.Budget.Sums.{day_cost, day_total, settle_row}

-- what a row adds to `observed_total`
abbrev pub seen_cost : ProviderBudgetLedgerRow → ℕ
seen_cost r = if r.released then 0 else elim r.observed_cost [ none ↦ 0 | some n ↦ n ]

abbrev pub by_day_key : String × ℕ → ProviderBudgetDayRow → Bool
by_day_key (p, d) = by_day p d

pub record BudgetInv (db : BudgetDb) : Type 0 where
  pub ids : Keyed by_id db.details
  pub fresh : All (λ r. r.id < db.next_id) db.details
  pub day_keys : Keyed by_day_key db.days
  pub has_day : All (λ r. scalar (by_day r.provider r.day_utc) db.days ≢ none) db.details
  pub reserved :
      (p : String) (d : ℕ)
      → day_total (λ r. r.reserved_total) p d db.days
        ≡ total (day_cost effective_cost p d) db.details
  pub observed :
      (p : String) (d : ℕ)
      → day_total (λ r. r.observed_total) p d db.days ≡ total (day_cost seen_cost p d) db.details

-- An update of the days that keeps their keys leaves every detail row its day.
pub days_kept :
    (q : ProviderBudgetDayRow → Bool) (f : ProviderBudgetDayRow → ProviderBudgetDayRow) (p : String)
    (d : ℕ) (days : List ProviderBudgetDayRow)
    → ((p : String) (d : ℕ) (r : ProviderBudgetDayRow) → by_day p d (f r) ≡ by_day p d r)
    → scalar (by_day p d) days ≢ none
    → scalar (by_day p d) (update q f days) ≢ none
days_kept q f p d days keeps there =
    rw (scalar-update (by_day p d) q f (keeps p d) days) (split (scalar (by_day p d) days) there)
  where
    split :
        (o : Option ProviderBudgetDayRow)
        → o ≢ none
        → elim o [ none ↦ none | some r ↦ some (if q r then f r else r) ] ≢ none
    split none h = absurd (h refl)
    split (some r) h = λ e. cc

-- One transaction that settles one detail row: the tables stay consistent.
module _ (db : BudgetDb) (inv : BudgetInv db) (id : ℕ) (s : ProviderBudgetLedgerRow → Bool)
    (f : ProviderBudgetLedgerRow → ProviderBudgetLedgerRow) (row : ProviderBudgetLedgerRow)
    (delta observed_delta : ℤ) (found : scalar (by_id id) db.details ≡ some row)
    (live : s row ≡ true) (same_id : (r : ProviderBudgetLedgerRow) → (f r).id ≡ r.id)
    (same_provider : (r : ProviderBudgetLedgerRow) → (f r).provider ≡ r.provider)
    (same_day : (r : ProviderBudgetLedgerRow) → (f r).day_utc ≡ r.day_utc)
    (moves : (t : ℕ)
      → effective_cost row ≤ t
      → clamped t delta + effective_cost row ≡ t + effective_cost (f row))
    (moves_seen : (t : ℕ)
      → seen_cost row ≤ t
      → clamped t observed_delta + seen_cost row ≡ t + seen_cost (f row)) where
  settled_db : BudgetDb
  settled_db = record db {
    details = update (λ r. by_id id r && s r) f db.details;
    days = adjust row.provider row.day_utc delta observed_delta db.days;
  }

  settled_db-BudgetInv : BudgetInv settled_db
  unfolding settled_db adjust
  settled_db-BudgetInv = elim (Option-cases (scalar (by_day row.provider row.day_utc) db.days)) [
    | inl missing ↦ absurd (All-scalar _ (by_id id) db.details inv.has_day found missing)
    | inr (day_row, there) ↦ record {
      ids = λ k.
          rw (row_count-update (by_id k) _ f (λ r. ap (λ i. i == k) (same_id r)) db.details)
            (inv.ids k);
      fresh = All-update _ _ f db.details (λ r t h. rw (same_id r) h) inv.fresh;
      day_keys = λ k.
          rw (row_count-update (by_day_key k) _ (adjusted delta observed_delta) (λ r. refl) db.days)
            (inv.day_keys k);
      has_day =
          All-map _ _ _
            (λ r h.
              days_kept _ (adjusted delta observed_delta) r.provider r.day_utc db.days
                (λ p d x. refl) h)
            (All-update _ _ f db.details (λ r t h. rw (same_provider r, same_day r) h) inv.has_day);
      reserved =
          settle_row (λ r. r.reserved_total) (adjusted delta observed_delta) delta effective_cost f
            id s (λ p d r. refl) (λ r. refl) (λ p d r. same_of_day p d r) db.days db.details row
            day_row inv.reserved (inv.ids id) found live there moves;
      observed =
          settle_row (λ r. r.observed_total) (adjusted delta observed_delta) observed_delta
            seen_cost f id s (λ p d r. refl) (λ r. refl) (λ p d r. same_of_day p d r) db.days
            db.details row day_row inv.observed (inv.ids id) found live there moves_seen;
    }
  ]
    where
      same_of_day :
          (p : String) (d : ℕ) (r : ProviderBudgetLedgerRow) → of_day p d (f r) ≡ of_day p d r
      same_of_day p d r = rw (same_provider r, same_day r) refl

-- the two conditions on a row beside its id
abbrev awaits : ProviderBudgetLedgerRow → Bool
awaits r = unobserved r.observed_cost && not r.released

abbrev unreleased : ProviderBudgetLedgerRow → Bool
unreleased r = not r.released

reconcile_moves :
    (o : ℕ) (row : ProviderBudgetLedgerRow) (t : ℕ)
    → awaits row ≡ true
    → effective_cost row ≤ t
    → clamped t (sub_ℕ o row.reserved_cost) + effective_cost row
      ≡ t + effective_cost (observe o row)
reconcile_moves o row t live h = ground arith

reconcile_moves_seen :
    (o : ℕ) (row : ProviderBudgetLedgerRow) (t : ℕ)
    → awaits row ≡ true
    → seen_cost row ≤ t
    → clamped t (pos o) + seen_cost row ≡ t + seen_cost (observe o row)
reconcile_moves_seen o row t live h = ground arith

release_moves :
    (row : ProviderBudgetLedgerRow) (t : ℕ)
    → unreleased row ≡ true
    → effective_cost row ≤ t
    → clamped t (sub_ℕ 0 (or_reserved row.observed_cost row.reserved_cost)) + effective_cost row
      ≡ t + effective_cost (free row)
release_moves row t live h = ground arith

release_moves_seen :
    (row : ProviderBudgetLedgerRow) (t : ℕ)
    → unreleased row ≡ true
    → seen_cost row ≤ t
    → clamped t (sub_ℕ 0 (or_zero row.observed_cost)) + seen_cost row ≡ t + seen_cost (free row)
release_moves_seen row t live h = ground arith

reconcile_with-BudgetInv :
    (id observed : ℕ) (db : BudgetDb) → BudgetInv db → BudgetInv (reconcile_with id observed db)
unfolding reconcile_with settled_db
reconcile_with-BudgetInv id observed db inv = elim (Option-cases (scalar (by_id id) db.details)) [
  | inl missing ↦ rw (missing, reconcile_with) inv
  | inr (row, found) ↦
      let count = row_count_narrow (by_id id) awaits db.details (inv.ids id) found in
      elim (Bool-cases (awaits row)) [
        | inr dead ↦ rw (found, reconcile_with, count, dead) inv
        | inl live ↦
            rw (found, reconcile_with, count, live)
              (settled_db-BudgetInv db inv id awaits (observe observed) row
                (sub_ℕ observed row.reserved_cost) (pos observed) found live (λ r. refl) (λ r. refl)
                (λ r. refl) (λ t h. reconcile_moves observed row t live h)
                (λ t h. reconcile_moves_seen observed row t live h))
      ]
]

pub reconcile-BudgetInv :
    (id : ℕ) (cost : Option ℤ) (db : BudgetDb) → BudgetInv db → BudgetInv (reconcile id cost db)
unfolding reconcile
reconcile-BudgetInv id none db inv = inv
reconcile-BudgetInv id (some cost) db inv = reconcile_with-BudgetInv id (pos_part cost) db inv

pub release-BudgetInv : (id : ℕ) (db : BudgetDb) → BudgetInv db → BudgetInv (release id db)
unfolding release settled_db
release-BudgetInv id db inv = elim (Option-cases (scalar (by_id id) db.details)) [
  | inl missing ↦ rw (missing, release) inv
  | inr (row, found) ↦
      let count = row_count_narrow (by_id id) unreleased db.details (inv.ids id) found in
      elim (Bool-cases (unreleased row)) [
        | inr dead ↦ rw (found, release, count, dead) inv
        | inl live ↦
            rw (found, release, count, live)
              (settled_db-BudgetInv db inv id unreleased free row
                (sub_ℕ 0 (or_reserved row.observed_cost row.reserved_cost))
                (sub_ℕ 0 (or_zero row.observed_cost)) found live (λ r. refl) (λ r. refl) (λ r. refl)
                (λ t h. release_moves row t live h) (λ t h. release_moves_seen row t live h))
      ]
]
