-- ===== src/Runner/Records.antt =====
-- How a pass may leave the row of a job, and what `execute` of src/betmaxxing/scheduler/runner.py makes of a
-- report.
use betmaxxing.Prelude.{
  ℕ, ◌+◌, ◌-◌, ◌*◌, ◌^◌, ◌≤◌, ◌≡◌, ◌≢◌, refl, sym, subst, String, Bool, true, false, Option, none,
  some, arith, ◌⊎◌, leb, Result, ok, err, str_eq_ne,
}
use betmaxxing.Scheduler.Row.{
  succeeded, failed_retryable, failed_final, deferred, skipped_budget, SchedulerJobRow, JobLedger,
}
use betmaxxing.Scheduler.Complete.{succeed, fail, backoff_for}
use betmaxxing.Runner.Outcome.{
  CollectionStatus, status_ok, collected_no_model, no_candidate, coverage_missing, data_stale,
  provider_error, transient, configuration, budget, success, RunnerTexts, AcquisitionReport,
  execute, failure_outcome, successful_statuses,
}

-- A failure that may pass: the third attempt is the last, and before it the next one waits for the base
-- delay, doubled for each attempt before.
pub record Retried (ledger : JobLedger) (clock : ℕ) (r after : SchedulerJobRow) : Type 0 where
  pub last : 3 ≤ r.attempts → (after.state ≡ failed_final) × (after.next_attempt_at ≡ none)
  pub more :
      r.attempts ≤ 2
      → (after.state ≡ failed_retryable)
        × (after.next_attempt_at ≡ some (clock + ledger.retry_backoff * 2 ^ (r.attempts - 1)))
  pub counted : after.attempts ≡ r.attempts

-- How a job's row is left, by what the service returned or raised and whether the lease was lost, and
-- whether the job counts as executed.
pub data Records (ledger : JobLedger) (clock : ℕ) (r : SchedulerJobRow)
    : Result String AcquisitionReport → Bool → Bool → SchedulerJobRow → Type 0 where
  raised :
      (text : String) (lost : Bool) (after : SchedulerJobRow)
      → Retried ledger clock r after
      → Records ledger clock r (err text) lost false after
  lost_lease : (report : AcquisitionReport) → Records ledger clock r (ok report) true false r
  acknowledges :
      (report : AcquisitionReport) (after : SchedulerJobRow)
      → report.collection_status ≢ provider_error
      → after.state ≡ succeeded
      → (report.scan_id ≢ "" → after.scan_id ≡ some report.scan_id)
      → Records ledger clock r (ok report) false true after
  unusable :
      (report : AcquisitionReport) (after : SchedulerJobRow)
      → report.collection_status ≡ provider_error
      → report.failure ≡ some configuration
      → after.state ≡ failed_final
      → Records ledger clock r (ok report) false false after
  over_budget :
      (report : AcquisitionReport) (after : SchedulerJobRow)
      → report.collection_status ≡ provider_error
      → report.failure ≡ some budget
      → (after.state ≡ deferred) ⊎ (after.state ≡ skipped_budget)
      → after.attempts + 1 ≡ r.attempts
      → Records ledger clock r (ok report) false false after
  passing :
      (report : AcquisitionReport) (after : SchedulerJobRow)
      → report.collection_status ≡ provider_error
      → (report.failure ≡ some transient) ⊎ (report.failure ≡ none)
      → Retried ledger clock r after
      → Records ledger clock r (ok report) false false after

pub fail-Retried :
    (ledger : JobLedger) (clock : ℕ) (detail : String) (r : SchedulerJobRow)
    → Retried ledger clock r
        (fail clock detail (leb 3 r.attempts) (backoff_for ledger r.attempts) r)
unfolding backoff_for
fail-Retried ledger clock detail r = record {
  last = λ many. let e : leb 3 r.attempts ≡ true = ground arith in (rw e refl, rw e refl);
  more = λ few. let e : leb 3 r.attempts ≡ false = ground arith in (rw e refl, rw e refl);
  counted = refl;
}

pub kept_scan :
    (clock : ℕ) (r : SchedulerJobRow) (s : String) (scan : Option String)
    → scan ≡ some s
    → s ≢ ""
    → (succeed clock scan r).scan_id ≡ some s
kept_scan clock r s scan e named =
    subst (λ o. (succeed clock o r).scan_id ≡ some s) (sym e) (rw (str_eq_ne s "" named) refl)

-- What `execute` makes of a report.
pub execute_fine :
    (texts : RunnerTexts) (report : AcquisitionReport)
    → successful_statuses report.collection_status ≡ true
    → ((execute texts report).outcome ≡ success)
      × ((execute texts report).scan_id ≡ some report.scan_id)
unfolding execute
execute_fine texts report e = rw e (refl, refl)

pub execute_bad :
    (texts : RunnerTexts) (report : AcquisitionReport)
    → successful_statuses report.collection_status ≡ false
    → (execute texts report).outcome ≡ failure_outcome report.failure
unfolding execute
execute_bad texts report e = rw e refl

pub status_fine : (s : CollectionStatus) → successful_statuses s ≡ true → s ≢ provider_error
status_fine status_ok e h = cc
status_fine collected_no_model e h = cc
status_fine no_candidate e h = cc
status_fine coverage_missing e h = cc
status_fine data_stale e h = cc
status_fine provider_error e h = cc

pub status_bad : (s : CollectionStatus) → successful_statuses s ≡ false → s ≡ provider_error
status_bad status_ok e = cc
status_bad collected_no_model e = cc
status_bad no_candidate e = cc
status_bad coverage_missing e = cc
status_bad data_stale e = cc
status_bad provider_error e = refl
