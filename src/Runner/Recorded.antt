-- ===== src/Runner/Recorded.antt =====
-- What the ledger holds of a job after its pass, by what the service returned or raised.
use Prim.Native.String.{◌++◌ as text_append}
use betmaxxing.Prelude.{
  ◌≤◌, ◌≡◌, ◌≢◌, refl, sym, ◌∙◌, subst, String, Bool, true, false, ◌||◌, not, Option, none, some,
  arith, Bool-cases, inl, inr, leb, Result, ok, err,
}
use betmaxxing.Table.{scalar, scalar-update, scalar_sound, Keyed}
use betmaxxing.Scheduler.Row.{failed_final, SchedulerJobRow, Jobs, by_id, ClaimedJob}
use betmaxxing.Scheduler.Complete.{
  claimed, owned_by, succeed, fail, mark_succeeded, mark_failed, backoff_for,
}
use betmaxxing.Scheduler.Ownership.{owns, complete_of_found}
use betmaxxing.Scheduler.Trace.{committed, run as calls}
use betmaxxing.Runner.Defs.{finish}
use betmaxxing.Runner.Outcome.{
  provider_error, FailureKind, transient, configuration, budget, ExecutionOutcome, success,
  retryable_failure, final_failure, AcquisitionReport, ExecutionResult, execute, failure,
  failure_outcome, outcome_text, successful_statuses,
}
use betmaxxing.Runner.Guard.{enter_guard, guard_run}
use betmaxxing.Runner.Records.{
  Retried, Records, raised, lost_lease, acknowledges, unusable, over_budget, passing, fail-Retried,
  kept_scan, execute_fine, execute_bad, status_fine, status_bad,
}
use betmaxxing.Runner.Reset.{completed-found, budget_refusal-Waits}
use betmaxxing.Runner.Superseded.{at_record}
use betmaxxing.Runner.Tick.{JobRun, Worker, conclude, after_work, run_job}

-- whether the guard saw the lease lost
abbrev pub guard_lost : Worker → JobRun → ClaimedJob → Jobs → Bool
guard_lost w r job jobs =
    let entered =
      enter_guard w.ledger job r.at_entry (calls w.digest w.ledger jobs r.before_entry) in
    (guard_run w.digest w.ledger job r.during entered).lost

module _ (w : Worker) (job : ClaimedJob) (run : JobRun) (jobs : Jobs) (r : SchedulerJobRow)
    (keyed : Keyed by_id jobs) (found : scalar (by_id job.job_id) jobs ≡ some r)
    (mine : owns (some job.claim_token) r ≡ true) (counted : 1 ≤ r.attempts) where
  -- what `_finish` leaves of the row
  Left : ExecutionResult → SchedulerJobRow → Type 0
  Left result after =
      scalar (by_id job.job_id) (finish w.texts w.ledger run.events job result run.clock jobs)
      ≡ some after

  failed-found :
      (detail : String) (retryable : Bool)
      → scalar
          (by_id job.job_id)
          (committed jobs (mark_failed w.ledger (claimed job) detail retryable none run.clock jobs))
        ≡ some (
            fail run.clock detail
              (not retryable || leb 3 r.attempts)
              (backoff_for w.ledger r.attempts)
              r)
  unfolding mark_failed
  failed-found detail retryable =
      rw (mark_failed, found)
        (completed-found job
          (fail run.clock detail (not retryable || leb 3 r.attempts)
            (backoff_for w.ledger r.attempts))
          jobs r (λ i x. refl) keyed found mine)

  finish_retryable :
      (result : ExecutionResult)
      → result.outcome ≡ retryable_failure
      → (after : SchedulerJobRow) × Left result after × Retried w.ledger run.clock r after
  unfolding finish Left
  finish_retryable result e =
      let detail = text_append (outcome_text retryable_failure) (text_append ": " result.detail) in
      (
        fail run.clock detail (leb 3 r.attempts) (backoff_for w.ledger r.attempts) r,
        rw (finish, e) (failed-found detail true),
        fail-Retried w.ledger run.clock detail r,
      )

  finish_finally :
      (result : ExecutionResult)
      → result.outcome ≡ final_failure
      → (after : SchedulerJobRow) × Left result after × (after.state ≡ failed_final)
  unfolding finish Left
  finish_finally result e =
      let detail = text_append (outcome_text final_failure) (text_append ": " result.detail) in
      (
        fail run.clock detail true (backoff_for w.ledger r.attempts) r,
        rw (finish, e) (failed-found detail false),
        refl,
      )

  -- the row and the report of an end, as `Records` has them
  Leaves : Result String AcquisitionReport → Bool → Bool × Jobs → Type 0
  Leaves x lost end =
      (after : SchedulerJobRow) × (scalar (by_id job.job_id) end.1 ≡ some after)
      × Records w.ledger run.clock r x lost end.0 after

  succeeded-Leaves :
      (report : AcquisitionReport) (result : ExecutionResult)
      → report.collection_status ≢ provider_error
      → result.scan_id ≡ some report.scan_id
      → Leaves (ok report) false (conclude w job run result success jobs)
  unfolding mark_succeeded Leaves
  succeeded-Leaves report result fine scan =
      let id = job.job_id in
      let token = some job.claim_token in
      let after = succeed run.clock result.scan_id r in
      let hit = scalar_sound (by_id id) jobs {r = r} found in
      rw
        (
          complete_of_found id token (succeed run.clock result.scan_id) jobs {r = r} keyed found,
          mine,
        )
        (
          after,
          scalar-update (by_id id) (owned_by id token) (succeed run.clock result.scan_id)
                (λ x. refl) jobs
              ∙ rw (found, hit, mine) refl,
          acknowledges report after fine refl
              (kept_scan run.clock r report.scan_id result.scan_id scan),
        )

  failed-Leaves :
      (report : AcquisitionReport) (result : ExecutionResult) (kind : Option FailureKind)
      → report.collection_status ≡ provider_error
      → report.failure ≡ kind
      → result.outcome ≡ failure_outcome kind
      → Leaves (ok report) false (conclude w job run result (failure_outcome kind) jobs)
  unfolding Leaves Left
  failed-Leaves report result none bad kind e =
      let f = finish_retryable result e in (f.0, f.1, passing report f.0 bad (inr kind) f.2)
  failed-Leaves report result (some transient) bad kind e =
      let f = finish_retryable result e in (f.0, f.1, passing report f.0 bad (inl kind) f.2)
  failed-Leaves report result (some configuration) bad kind e =
      let f = finish_finally result e in (f.0, f.1, unusable report f.0 bad kind f.2)
  failed-Leaves report result (some budget) bad kind e =
      let f =
        budget_refusal-Waits w.texts w.ledger run.events job result run.clock run.clock jobs r keyed
          found mine counted e (omega arith) in
      (
        f.1,
        f.3,
        over_budget report f.1 bad kind (elim f.4.outcome [ inl h ↦ inr h.0 | inr h ↦ inl h.0 ])
            f.4.no_attempt,
      )

  after_work-Leaves :
      (x : Result String AcquisitionReport) (lost : Bool)
      → Leaves x lost (after_work w job run x lost jobs)
  unfolding Leaves Left
  after_work-Leaves (err text) lost =
      let f = finish_retryable (failure text) refl in (f.0, f.1, raised text lost f.0 f.2)
  after_work-Leaves (ok report) true = (r, found, lost_lease report)
  after_work-Leaves (ok report) false =
      let result = execute w.texts report in
      let by_outcome : (o : ExecutionOutcome)
          → result.outcome ≡ o
          → Leaves (ok report) false (conclude w job run result o jobs)
          → Leaves (ok report) false (conclude w job run result result.outcome jobs) =
        λ o e h.
          subst (λ y. Leaves (ok report) false (conclude w job run result y jobs)) (sym e) h in
      elim (Bool-cases (successful_statuses report.collection_status)) [
        | inl fine ↦
            let x = execute_fine w.texts report fine in
            by_outcome success x.0
              (succeeded-Leaves report result (status_fine report.collection_status fine) x.1)
        | inr bad ↦
            let e = execute_bad w.texts report bad in
            by_outcome (failure_outcome report.failure) e (
              failed-Leaves report result report.failure (status_bad report.collection_status bad)
                refl e)
      ]

-- A pass records of each job what came of it: when its outcome is about to be recorded in a table with
-- unique ids, and its row, which counts an attempt, is still running under the job's token, the row is
-- then left as follows. What the service raised, or an error that may pass, is a failure to be tried
-- again after a delay that doubles, and final at the third attempt; an unusable configuration is a
-- final failure; a spent budget defers or skips the job and gives its attempt back; any other result
-- of a collection is a success, with its scan if that is named, and only that is reported as executed;
-- and a lease that the guard saw lost leaves the row as it is.
pub run_job-Records :
    (w : Worker) (run : JobRun) (job : ClaimedJob) (jobs : Jobs) (row : SchedulerJobRow)
    → Keyed by_id (at_record w run job jobs)
    → scalar (by_id job.job_id) (at_record w run job jobs) ≡ some row
    → owns (some job.claim_token) row ≡ true
    → 1 ≤ row.attempts
    → (after : SchedulerJobRow) × (scalar (by_id job.job_id) (run_job w run job jobs).1
        ≡ some after)
      × Records w.ledger run.clock row run.returned
          (guard_lost w run job jobs)
          (run_job w run job jobs).0
          after
unfolding run_job Leaves
run_job-Records w run job jobs row keyed found mine counted =
    after_work-Leaves w job run (at_record w run job jobs) row keyed found mine counted run.returned
      (guard_lost w run job jobs)
