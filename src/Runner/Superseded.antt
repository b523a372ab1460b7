-- ===== src/Runner/Superseded.antt =====
-- A worker whose lease was lost writes nothing.
use betmaxxing.Prelude.{
  ℕ, ◌≡◌, refl, ap, String, Bool, true, false, none, some, List, Bool-cases, inl, inr, leb, Result,
  ok, err,
}
use betmaxxing.Table.{scalar, Keyed}
use betmaxxing.Identity.Rows.{EventRow}
use betmaxxing.Scheduler.Row.{SchedulerJobRow, Jobs, by_id, ClaimedJob, JobLedger}
use betmaxxing.Scheduler.Ownership.{owns, Refused, not_owner-Refused}
use betmaxxing.Scheduler.Trace.{committed, run}
use betmaxxing.Runner.Defs.{defer_for_budget, finish_with, finish, next_budget_reset, job_deadline}
use betmaxxing.Runner.Outcome.{
  success, retryable_failure, final_failure, budget_exhausted, lease_lost, RunnerTexts,
  ExecutionOutcome, AcquisitionReport, ExecutionResult, failure,
}
use betmaxxing.Runner.Guard.{enter_guard, guard_run}
use betmaxxing.Runner.Tick.{JobRun, Worker, conclude, after_work, run_job}

finish-Refused :
    (texts : RunnerTexts) (ledger : JobLedger) (events : List EventRow) (job : ClaimedJob)
    (result : ExecutionResult) (now : ℕ) (jobs : Jobs)
    → Refused ledger job jobs
    → finish texts ledger events job result now jobs ≡ jobs
unfolding finish defer_for_budget
finish-Refused texts ledger events job result now jobs barred = by_outcome result.outcome _
  where
    by_outcome :
        (o : ExecutionOutcome) (detail : String)
        → committed jobs (finish_with texts ledger events job o detail now jobs) ≡ jobs
    by_outcome budget_exhausted detail =
        elim (Bool-cases (leb (job_deadline events job) (next_budget_reset texts now job.job_id))) [
          | inl e ↦ rw (e, barred.to_skip _ now) refl
          | inr e ↦ rw (e, barred.to_defer _ _ now) refl
        ]
    by_outcome final_failure detail = rw (barred.to_fail detail false none now) refl
    by_outcome success detail = rw (barred.to_fail detail true none now) refl
    by_outcome retryable_failure detail = rw (barred.to_fail detail true none now) refl
    by_outcome lease_lost detail = rw (barred.to_fail detail true none now) refl

conclude-Refused :
    (w : Worker) (job : ClaimedJob) (r : JobRun) (result : ExecutionResult) (o : ExecutionOutcome)
    (jobs : Jobs)
    → Refused w.ledger job jobs
    → conclude w job r result o jobs ≡ (false, jobs)
conclude-Refused w job r result success jobs barred =
    rw (barred.to_succeed result.scan_id r.clock) refl
conclude-Refused w job r result retryable_failure jobs barred =
    ap (λ t. (false, t)) (finish-Refused w.texts w.ledger r.events job result r.clock jobs barred)
conclude-Refused w job r result final_failure jobs barred =
    ap (λ t. (false, t)) (finish-Refused w.texts w.ledger r.events job result r.clock jobs barred)
conclude-Refused w job r result budget_exhausted jobs barred =
    ap (λ t. (false, t)) (finish-Refused w.texts w.ledger r.events job result r.clock jobs barred)
conclude-Refused w job r result lease_lost jobs barred =
    ap (λ t. (false, t)) (finish-Refused w.texts w.ledger r.events job result r.clock jobs barred)

after_work-Refused :
    (w : Worker) (job : ClaimedJob) (r : JobRun) (x : Result String AcquisitionReport) (lost : Bool)
    (jobs : Jobs)
    → Refused w.ledger job jobs
    → after_work w job r x lost jobs ≡ (false, jobs)
after_work-Refused w job r (err raised) lost jobs barred =
    ap (λ t. (false, t))
      (finish-Refused w.texts w.ledger r.events job (failure raised) r.clock jobs barred)
after_work-Refused w job r (ok report) true jobs barred = refl
after_work-Refused w job r (ok report) false jobs barred = conclude-Refused w job r _ _ jobs barred

-- the table when the outcome of a job is about to be recorded
abbrev pub at_record : Worker → JobRun → ClaimedJob → Jobs → Jobs
at_record w r job jobs =
    let entered = enter_guard w.ledger job r.at_entry (run w.digest w.ledger jobs r.before_entry) in
    run w.digest w.ledger (guard_run w.digest w.ledger job r.during entered).jobs r.before_record

-- A superseded worker writes nothing: when its outcome is about to be recorded in a table with unique
-- ids and the job's row is no longer running under its token, then, whatever the service returned or
-- raised and whether or not the guard noticed, the table stays as it is and the job is not reported
-- as executed.
pub superseded_writes_nothing :
    (w : Worker) (r : JobRun) (job : ClaimedJob) (jobs : Jobs) (row : SchedulerJobRow)
    → Keyed by_id (at_record w r job jobs)
    → scalar (by_id job.job_id) (at_record w r job jobs) ≡ some row
    → owns (some job.claim_token) row ≡ false
    → run_job w r job jobs ≡ (false, at_record w r job jobs)
unfolding run_job
superseded_writes_nothing w r job jobs row keyed found other =
    let entered = enter_guard w.ledger job r.at_entry (run w.digest w.ledger jobs r.before_entry) in
    after_work-Refused w job r r.returned (guard_run w.digest w.ledger job r.during entered).lost
      (at_record w r job jobs)
      (not_owner-Refused w.ledger job (at_record w r job jobs) {r = row} keyed found other)
