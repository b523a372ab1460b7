-- ===== src/Budget/Once.antt =====
-- A reconciliation and a release are each done once.
use betmaxxing.Prelude.{
  ℕ, ◌≡◌, refl, ◌&&◌, not, Option, none, some, arith, Bool-cases, Option-cases, inl, inr,
}
use betmaxxing.Prelude.Int.{ℤ, pos_part}
use betmaxxing.Table.{
  scalar, row_count, row_count_narrow, row_count-update_self, row_count_narrow_none, row_count_mono,
}
use betmaxxing.Budget.Defs.{
  BudgetDb, by_id, reconcile, reconcile_with, reconcilable, observe, release, releasable, free,
  unobserved,
}
use betmaxxing.Budget.Invariant.{BudgetInv}

reconcile_dead :
    (id o : ℕ) (db : BudgetDb)
    → row_count (reconcilable id) db.details ≡ 0
    → reconcile_with id o db ≡ db
unfolding reconcile_with
reconcile_dead id o db dead = elim (Option-cases (scalar (by_id id) db.details)) [
  | inl missing ↦ rw (missing, reconcile_with) refl
  | inr (row, found) ↦ rw (found, reconcile_with, dead) refl
]

release_dead :
    (id : ℕ) (db : BudgetDb) → row_count (releasable id) db.details ≡ 0 → release id db ≡ db
unfolding release
release_dead id db dead = elim (Option-cases (scalar (by_id id) db.details)) [
  | inl missing ↦ rw (missing, release) refl
  | inr (row, found) ↦ rw (found, release, dead) refl
]

reconciled :
    (id o : ℕ) (db : BudgetDb)
    → BudgetInv db
    → row_count (reconcilable id) (reconcile_with id o db).details ≡ 0
unfolding reconcile_with
reconciled id o db inv = elim (Option-cases (scalar (by_id id) db.details)) [
  | inl missing ↦
      rw (missing, reconcile_with) (row_count_narrow_none (by_id id) _ db.details missing)
  | inr (row, found) ↦
      let count =
        row_count_narrow (by_id id) (λ r. unobserved r.observed_cost && not r.released) db.details
          (inv.ids id) found in
      elim (Bool-cases (unobserved row.observed_cost && not row.released)) [
        | inr dead ↦ rw (found, reconcile_with, count, dead) (rw (count, dead) refl)
        | inl live ↦
            rw (found, reconcile_with, count, live)
              (row_count-update_self (reconcilable id) (observe o) (λ r t. ground arith) db.details)
      ]
]

freed :
    (id : ℕ) (db : BudgetDb) → BudgetInv db → row_count (releasable id) (release id db).details ≡ 0
unfolding release
freed id db inv = elim (Option-cases (scalar (by_id id) db.details)) [
  | inl missing ↦ rw (missing, release) (row_count_narrow_none (by_id id) _ db.details missing)
  | inr (row, found) ↦
      let count = row_count_narrow (by_id id) (λ r. not r.released) db.details (inv.ids id) found in
      elim (Bool-cases (not row.released)) [
        | inr dead ↦ rw (found, release, count, dead) (rw (count, dead) refl)
        | inl live ↦
            rw (found, release, count, live)
              (row_count-update_self (releasable id) free (λ r t. ground arith) db.details)
      ]
]

-- On consistent tables, a reconciliation is done once: after one with a reported cost, another
-- changes nothing.
pub reconcile_idempotent :
    (id : ℕ) (cost : ℤ) (later : Option ℤ) (db : BudgetDb)
    → BudgetInv db
    → reconcile id later (reconcile id (some cost) db) ≡ reconcile id (some cost) db
unfolding reconcile
reconcile_idempotent id cost none db inv = refl
reconcile_idempotent id cost (some c) db inv =
    reconcile_dead id (pos_part c) _ (reconciled id (pos_part cost) db inv)

-- On consistent tables, a release is final: after one, a second release and any reconciliation change nothing.
pub release_final :
    (id : ℕ) (later : Option ℤ) (db : BudgetDb)
    → BudgetInv db
    → (release id (release id db) ≡ release id db)
      × (reconcile id later (release id db) ≡ release id db)
unfolding reconcile
release_final id none db inv = (release_dead id _ (freed id db inv), refl)
release_final id (some c) db inv = (
  release_dead id _ (freed id db inv),
  reconcile_dead id (pos_part c) _ (
      omega (
        arith,
        freed id db inv,
        row_count_mono (reconcilable id) (releasable id) (λ r t. ground arith)
            (release id db).details,
      )),
)
