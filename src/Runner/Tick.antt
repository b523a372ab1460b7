-- ===== src/Runner/Tick.antt =====
-- `tick` of src/betmaxxing/scheduler/runner.py: one pass of planning and execution, with whatever other
-- workers call while a job runs.
use betmaxxing.Prelude.{
  ℕ, suc, String, Bool, true, false, none, some, List, [], ◌∷◌, Result, ok, err,
}
use betmaxxing.Prelude.Int.{ℤ}
use betmaxxing.Identity.Rows.{EventRow}
use betmaxxing.Scheduler.Row.{
  Jobs, ClaimedJob, JobLedger, LedgerError, hours, default_catchup_grace,
}
use betmaxxing.Scheduler.Enqueue.{Digest}
use betmaxxing.Scheduler.Claim.{claim_due}
use betmaxxing.Scheduler.Complete.{claimed, mark_succeeded}
use betmaxxing.Scheduler.Trace.{Call, run}
use betmaxxing.Scheduler.Materialise.{Calendar, Plan, ScanTimeError, materialise}
use betmaxxing.Runner.Defs.{finish}
use betmaxxing.Runner.Outcome.{
  success, RunnerTexts, ExecutionOutcome, AcquisitionReport, ExecutionResult, execute, failure,
  milestones_for,
}
use betmaxxing.Runner.Guard.{Beat, During, enter_guard, guard_run}

-- What surrounds one job of a pass: what other workers call before it, the renewal at its start, what happens while the service works, what
-- the service returns or raises, what other workers call before the outcome is recorded, the clock
-- then, and the events stored then.
pub record JobRun : Type 0 where
  pub before_entry : List Call
  pub at_entry : Beat
  pub during : List During
  pub returned : Result String AcquisitionReport
  pub before_record : List Call
  pub clock : ℕ
  pub events : List EventRow

pub record Worker : Type 0 where
  pub digest : Digest
  pub texts : RunnerTexts
  pub ledger : JobLedger

abbrev pub acknowledged : Jobs → Result LedgerError Jobs → Bool × Jobs
acknowledged jobs (ok jobs') = (true, jobs')
acknowledged jobs (err stale) = (false, jobs)

-- what follows work that returned
abbrev pub conclude :
    Worker → ClaimedJob → JobRun → ExecutionResult → ExecutionOutcome → Jobs → Bool × Jobs
conclude w job r result success jobs =
    acknowledged jobs (mark_succeeded (claimed job) result.scan_id r.clock jobs)
conclude w job r result _ jobs = (false, finish w.texts w.ledger r.events job result r.clock jobs)

abbrev pub after_work :
    Worker → ClaimedJob → JobRun → Result String AcquisitionReport → Bool → Jobs → Bool × Jobs
after_work w job r (err raised) lost jobs =
    (false, finish w.texts w.ledger r.events job (failure raised) r.clock jobs)
after_work w job r (ok report) true jobs = (false, jobs)
after_work w job r (ok report) false jobs =
    let result = execute w.texts report in conclude w job r result result.outcome jobs

-- The body of the loop of `tick` for one job: whether it goes into `executed`.
unfoldable pub run_job : Worker → JobRun → ClaimedJob → Jobs → Bool × Jobs
unfolding enter_guard guard_run finish execute
run_job w r job jobs =
    let entered = enter_guard w.ledger job r.at_entry (run w.digest w.ledger jobs r.before_entry) in
    let guard = guard_run w.digest w.ledger job r.during entered in
    after_work w job r r.returned guard.lost (run w.digest w.ledger guard.jobs r.before_record)

abbrev pub push_if : Bool → ClaimedJob → List ClaimedJob → List ClaimedJob
push_if true job jobs = job ∷ jobs
push_if false job jobs = jobs

-- the loop; `runs n` surrounds the n-th claimed job
unfoldable pub run_jobs :
    Worker → (ℕ → JobRun) → ℕ → List ClaimedJob → Jobs → List ClaimedJob × Jobs
unfolding run_job
run_jobs w runs n [] jobs = ([], jobs)
run_jobs w runs n (job ∷ claims) jobs =
    let (done, jobs') = run_job w (runs n) job jobs in
    let (executed, jobs'') = run_jobs w runs (suc n) claims jobs' in
    (push_if done job executed, jobs'')

-- What a pass reads: the settings, the discovered events and the tokens of its claims.
pub record Pass : Type 0 where
  pub now : ℕ
  pub worker : String
  pub daily_times : List String
  pub offsets : List ℤ
  pub discovered : List (String × ℕ)
  pub tokens : ℕ → String
  pub runs : ℕ → JobRun

-- what ends a pass early
pub data TickError : Type 0 where
  no_such_time overflow : TickError

abbrev pub pass_plan : Pass → List (String × ℕ) → Plan
pass_plan p milestones = record {
  now = p.now;
  daily_times = p.daily_times;
  milestones = milestones;
  horizon = hours 48;
  catchup_grace = default_catchup_grace;
}

abbrev pub claim_and_run :
    Worker → Pass → Result ScanTimeError ℕ × Jobs → Result TickError (List ClaimedJob) × Jobs
claim_and_run w p (err e, jobs) = (err no_such_time, jobs)
claim_and_run w p (ok created, jobs) =
    let (claims, jobs') = claim_due w.ledger p.now p.worker 10 p.tokens jobs in
    let (executed, jobs'') = run_jobs w p.runs 0 claims jobs' in (ok executed, jobs'')

-- `tick`
unfoldable pub tick : Worker → Calendar → Pass → Jobs → Result TickError (List ClaimedJob) × Jobs
unfolding milestones_for run_jobs
tick w cal p jobs = elim (milestones_for p.now p.offsets p.discovered) [
  | none ↦ (err overflow, jobs)
  | some milestones ↦ claim_and_run w p (materialise w.digest cal (pass_plan p milestones) jobs)
]
