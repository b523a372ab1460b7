-- ===== src/Scheduler/Progress.antt =====
-- Which jobs a claim reaches: every due job up to the limit, and a crashed third attempt never.
use betmaxxing.Prelude.{ℕ, ◌+◌, String, ◌≡◌, refl, false, some, arith, length, min}
use betmaxxing.Table.{scalar, row_count, Keyed}
use betmaxxing.Scheduler.Row.{running, SchedulerJobRow, Jobs, by_id, JobLedger, max_attempts}
use betmaxxing.Scheduler.Claim.{is_due, due_rows, claim_due}
use betmaxxing.Scheduler.Loop.{
  claim_due-claims, claim_due-not_due, length-claims_of, length-due_rows,
}

third_attempt :
    (moment : ℕ) (r : SchedulerJobRow)
    → r.state ≡ running
    → r.attempts ≡ max_attempts
    → is_due moment r ≡ false
unfolding is_due
third_attempt moment r e n = rw e (ground arith)

module _ (ledger : JobLedger) (moment : ℕ) (worker : String) (limit : ℕ) (tokens : ℕ → String)
    (jobs : Jobs) (keyed : Keyed by_id jobs) where
  -- No starvation: from a table with unique ids, a claim takes as many jobs as are due, up to its
  -- limit, however many rows that are not due the table holds.
  pub claim_due-count :
      length (claim_due ledger moment worker limit tokens jobs).0
      ≡ min limit (row_count (is_due moment) jobs)
  claim_due-count =
      rw
        (
          claim_due-claims ledger moment worker limit tokens jobs keyed,
          length-claims_of (moment + ledger.lease) tokens 0 (due_rows moment limit jobs),
          length-due_rows moment limit jobs,
        )
        refl

  -- In a table with unique ids, a job that is running its third attempt is never taken over, however
  -- long its lease has been expired: the claim leaves its row as it is.
  pub claim_due-third_attempt :
      (id : String) (r : SchedulerJobRow)
      → scalar (by_id id) jobs ≡ some r
      → r.state ≡ running
      → r.attempts ≡ max_attempts
      → scalar (by_id id) (claim_due ledger moment worker limit tokens jobs).1 ≡ some r
  claim_due-third_attempt id r found is_running third =
      claim_due-not_due ledger moment worker limit tokens jobs keyed id r found
        (third_attempt moment r is_running third)
