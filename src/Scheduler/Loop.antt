-- ===== src/Scheduler/Loop.antt =====
-- The loop of `claim_due` as a whole: each row that the query returned is claimed, in its order.
use betmaxxing.Prelude.{
  ℕ, suc, ◌+◌, ◌≤◌, String, ◌≡◌, refl, true, false, some, [], ◌∷◌, arith, str_eq, All, eq_iff,
  All-take, All-sort_by, sort_by, length, length-take, length-sort_by, min,
}
use betmaxxing.Table.{
  scalar, select, row_count, Keyed, All-select, All-map, All-both, length-select, Keyed-found,
  row_count-select-le, row_count-take-le, row_count-sort_by, select_sound,
}
use betmaxxing.Scheduler.Row.{SchedulerJobRow, Jobs, by_id, JobLedger}
use betmaxxing.Scheduler.Claim.{is_due, due_rows, claim_due}
use betmaxxing.Scheduler.Rounds.{
  claims_of, Found, own_id, Holds, claim_rows-claims, claim_rows-Keyed, claim_rows-other,
  claim_rows-Holds,
}

-- The query's rows have unique ids and are what their ids find.
due_rows-Keyed :
    (moment limit : ℕ) (jobs : Jobs)
    → Keyed by_id jobs
    → (k : String) → row_count (by_id k) (due_rows moment limit jobs) ≤ 1
unfolding due_rows
due_rows-Keyed moment limit jobs keyed k = omega (
  arith,
  keyed k,
  row_count-take-le (by_id k) limit (sort_by (λ r. r.scheduled_for) (select (is_due moment) jobs)),
  row_count-sort_by (by_id k) (λ r. r.scheduled_for) (select (is_due moment) jobs),
  row_count-select-le (by_id k) (is_due moment) jobs,
)

due_rows-All :
    (P : SchedulerJobRow → Type 0) (moment limit : ℕ) (jobs : Jobs)
    → All P jobs
    → All P (due_rows moment limit jobs)
unfolding due_rows
due_rows-All P moment limit jobs h =
    All-take P limit _ (All-sort_by _ P _ (All-select P (is_due moment) jobs h))

due_rows-IsDue :
    (moment limit : ℕ) (jobs : Jobs)
    → All (λ r. is_due moment r ≡ true) (due_rows moment limit jobs)
unfolding due_rows
due_rows-IsDue moment limit jobs =
    All-take _ limit _ (All-sort_by _ _ _ (select_sound (is_due moment) jobs))

module _ (ledger : JobLedger) (moment : ℕ) (worker : String) (limit : ℕ) (tokens : ℕ → String)
    (jobs : Jobs) (keyed : Keyed by_id jobs) where
  -- From a table with unique ids, `claim_due` hands out a claim for each row of its query, in the
  -- query's order, none skipped.
  pub claim_due-claims :
      (claim_due ledger moment worker limit tokens jobs).0
      ≡ claims_of (moment + ledger.lease) tokens 0 (due_rows moment limit jobs)
  unfolding claim_due
  claim_due-claims =
      claim_rows-claims moment (moment + ledger.lease) worker tokens 0 _ jobs
        (due_rows-Keyed moment limit jobs keyed) keyed
        (due_rows-All (Found jobs) moment limit jobs
          (Keyed-found by_id (λ r. r.job_id) own_id jobs keyed))

  -- From a table with unique ids, each claim that is handed out is the one that the table records: a
  -- running row with the claim's token and attempts, leased to this worker until `moment + lease`.
  pub claim_due-Holds :
      All
        (Holds moment
          (moment + ledger.lease)
          worker
          (claim_due ledger moment worker limit tokens jobs).1)
        (claim_due ledger moment worker limit tokens jobs).0
  unfolding claim_due
  claim_due-Holds = rw claim_due-claims (
      claim_rows-Holds moment (moment + ledger.lease) worker tokens 0 _ jobs
        (due_rows-Keyed moment limit jobs keyed) keyed
        (due_rows-All (Found jobs) moment limit jobs
          (Keyed-found by_id (λ r. r.job_id) own_id jobs keyed)))

  pub claim_due-Keyed :
      (k : String) → row_count (by_id k) (claim_due ledger moment worker limit tokens jobs).1 ≤ 1
  unfolding claim_due
  claim_due-Keyed =
      claim_rows-Keyed moment (moment + ledger.lease) worker tokens 0 (due_rows moment limit jobs)
        jobs keyed

  -- In a table with unique ids, a claim leaves a job that is not due exactly as it is.
  pub claim_due-not_due :
      (id : String) (r : SchedulerJobRow)
      → scalar (by_id id) jobs ≡ some r
      → is_due moment r ≡ false
      → scalar (by_id id) (claim_due ledger moment worker limit tokens jobs).1 ≡ some r
  unfolding claim_due
  claim_due-not_due id r found idle =
      claim_rows-other moment (moment + ledger.lease) worker tokens 0 _ jobs id
        (All-map _ _ _ (λ row (due, f). not_this row due f)
          (All-both _ _ _ (due_rows-IsDue moment limit jobs) (
            due_rows-All (Found jobs) moment limit jobs
              (Keyed-found by_id (λ x. x.job_id) own_id jobs keyed))))
        found
    where
      not_this :
          (row : SchedulerJobRow)
          → is_due moment row ≡ true
          → Found jobs row
          → str_eq row.job_id id ≡ false
      not_this row due f = ground (arith, eq_iff row.job_id id)

-- The number of claims is the number of due rows, up to the limit.
pub length-claims_of :
    (expiry : ℕ) (tokens : ℕ → String) (n : ℕ) (rows : Jobs)
    → length (claims_of expiry tokens n rows) ≡ length rows
length-claims_of expiry tokens n [] = refl
length-claims_of expiry tokens n (row ∷ rows) =
    omega (arith, length-claims_of expiry tokens (suc n) rows)

pub length-due_rows :
    (moment limit : ℕ) (jobs : Jobs)
    → length (due_rows moment limit jobs) ≡ min limit (row_count (is_due moment) jobs)
unfolding due_rows
length-due_rows moment limit jobs =
    rw
      (
        length-take limit (sort_by (λ r. r.scheduled_for) (select (is_due moment) jobs)),
        length-sort_by (λ (r : SchedulerJobRow). r.scheduled_for) (select (is_due moment) jobs),
        length-select (is_due moment) jobs,
      )
      refl
