-- ===== src/Runner/Tests.antt =====
-- The worker's theorems at concrete passes.
use betmaxxing.Prelude.{
  ◌+◌, ◌≡◌, refl, String, false, none, some, [], ◌∷◌, ok, ℕ, subst, sym, ap, ◌==◌, length,
  if◌then◌else◌, arith, All, sort_by, eq_iff,
}
use betmaxxing.Prelude.Int.{pos}
use betmaxxing.Table.{scalar, row_count, select, update, Keyed}
use betmaxxing.Budget.Defs.{day_key}
use betmaxxing.Scheduler.Row.{
  daily_scan, event_milestone, running, succeeded, SchedulerJobRow, by_id, ClaimedJob, minutes,
  hours,
}
use betmaxxing.Scheduler.Enqueue.{pending_row, enqueue, occurrence_id}
use betmaxxing.Scheduler.Claim.{claim_due, claim_rows, claim_one, due_rows, is_due}
use betmaxxing.Scheduler.Complete.{get_state, mark_succeeded, complete, renew_lease}
use betmaxxing.Scheduler.Invariant.{JobsInv}
use betmaxxing.Scheduler.Trace.{run}
use betmaxxing.Scheduler.Materialise.{
  Calendar, materialise, plan_entry, partition_colon, days_and_times, daily_pass, milestone_pass,
}
use betmaxxing.Runner.Defs.{next_budget_reset, finish}
use betmaxxing.Runner.Outcome.{
  status_ok, provider_error, transient, budget_exhausted, RunnerTexts, AcquisitionReport,
  ExecutionResult, milestones_for, execute,
}
use betmaxxing.Runner.Guard.{beat_at, renewal, enter_guard, guard_run, renew_once}
use betmaxxing.Runner.Tick.{JobRun, Worker, Pass, tick, run_job, run_jobs}
use betmaxxing.Runner.Executed.{executed_of, tick-executed}
use betmaxxing.Identity.Rows.{EventRow}
use betmaxxing.Runner.Deadline.{ValueEnds}
use betmaxxing.Runner.Records.{Records}
use betmaxxing.Runner.Recorded.{guard_lost, run_job-Records}
use betmaxxing.Runner.Reset.{Waits, budget_refusal-Waits}
use betmaxxing.Runner.Superseded.{at_record, superseded_writes_nothing}

abbrev texts : RunnerTexts
texts = record { first_two_bytes = λ s. 601; isoformat = λ t. "t"; join_warnings = λ ws. "" }

abbrev worker : Worker
worker = record {
  digest = record { sha256_32 = λ s. s; isoformat = λ t. "t" };
  texts = texts;
  ledger = record { lease = minutes 10; retry_backoff = minutes 2 };
}

-- only the day of the planning instant has a time in the window
abbrev calendar : Calendar
calendar = record {
  read_int = λ s. some (pos 8);
  instant_at = λ now k hour minute. some (if k == 1 then now else 0);
}

abbrev report : AcquisitionReport
report = record { scan_id = "s"; collection_status = status_ok; warnings = []; failure = none }

abbrev quiet_run : JobRun
quiet_run = record {
  before_entry = [];
  at_entry = beat_at (hours 240);
  during = renewal (beat_at (hours 240 + minutes 3)) ∷ [];
  returned = ok report;
  before_record = [];
  clock = hours 240 + minutes 5;
  events = [];
}

abbrev pass : Pass
pass = record {
  now = hours 240;
  worker = "w";
  daily_times = "08:00" ∷ [];
  offsets = [];
  discovered = [];
  tokens = λ n. "t0";
  runs = λ n. quiet_run;
}

empty-JobsInv : JobsInv []
unfolding row_count
empty-JobsInv = record { rows = tt; ids = λ k. omega arith; occurrences = λ k. omega arith }

tick-executed_example :
    All
      (λ job. get_state job.job_id (tick worker calendar pass []).1 ≡ some succeeded)
      (executed_of (tick worker calendar pass []).0)
tick-executed_example = tick-executed worker calendar pass [] empty-JobsInv

one_executed : length (executed_of (tick worker calendar pass []).0) ≡ 1
unfolding tick milestones_for materialise plan_entry partition_colon days_and_times daily_pass
    milestone_pass enqueue occurrence_id scalar claim_due claim_rows claim_one due_rows is_due
    select sort_by update row_count run_jobs run_job run enter_guard guard_run renew_once
    renew_lease complete execute mark_succeeded
one_executed = refl

abbrev worker_claim : ClaimedJob
worker_claim = record {
  job_id = "a";
  job_type = daily_scan;
  scheduled_for = hours 30;
  scope_id = none;
  attempts = 1;
  claim_token = "t0";
  lease_expires_at = none;
}

abbrev taken_row : String → SchedulerJobRow
taken_row token = record (pending_row "a" daily_scan (hours 30) "" 0) {
  state = running;
  attempts = 1;
  claim_token = some token;
  lease_expires_at = some (hours 31);
}

abbrev refusal : ExecutionResult
refusal = record {
  outcome = budget_exhausted;
  scan_id = none;
  collection_status = none;
  detail = "budget";
}

row_found : (token : String) → scalar (by_id "a") (taken_row token ∷ []) ≡ some (taken_row token)
unfolding scalar
row_found token = refl

row-Keyed : (token : String) → Keyed by_id (taken_row token ∷ [])
unfolding row_count
row-Keyed token k = ground (arith, eq_iff "a" k)

-- the same job for a milestone of an event that kicks off within the day
abbrev milestone_claim : ClaimedJob
milestone_claim = record worker_claim { job_type = event_milestone; scope_id = some "e1" }

abbrev tonight : EventRow
tonight = record {
  canonical_id = "e1";
  sport = "FOOTBALL";
  competition = "c";
  stage = none;
  season = none;
  home_name = "h";
  away_name = "a";
  home_canonical_id = "h";
  away_canonical_id = "a";
  participant_pair_key = none;
  start_time_utc = hours 33;
  status = "SCHEDULED";
  mapping_ambiguous = false;
  source_ids = [];
}

budget_refusal-Waits_example :
    (deadline : ℕ) × (after : SchedulerJobRow) × ValueEnds (tonight ∷ []) milestone_claim deadline
    × (scalar (by_id "a") (
          finish texts worker.ledger
            (tonight ∷ [])
            milestone_claim
            refusal
            (hours 30)
            (taken_row "t0" ∷ []))
        ≡ some after)
    × Waits (next_budget_reset texts (hours 30) "a") deadline (hours 47) (taken_row "t0") after
unfolding day_key
budget_refusal-Waits_example =
    budget_refusal-Waits texts worker.ledger (tonight ∷ []) milestone_claim refusal (hours 30)
      (hours 47) (taken_row "t0" ∷ []) (taken_row "t0") (row-Keyed "t0") (row_found "t0") refl
      (omega arith) refl (omega arith)

-- The provider failed, and the lease was renewed twice meanwhile.
abbrev failed_run : JobRun
failed_run = record quiet_run {
  returned = ok record {
    scan_id = "s";
    collection_status = provider_error;
    warnings = [];
    failure = some transient;
  };
}

abbrev renewed_row : SchedulerJobRow
renewed_row = record (taken_row "t0") { lease_expires_at = some (hours 240 + minutes 13) }

renewed_twice : at_record worker failed_run worker_claim (taken_row "t0" ∷ []) ≡ renewed_row ∷ []
unfolding run enter_guard guard_run renew_once renew_lease complete row_count update
renewed_twice = refl

renewed-Keyed : Keyed by_id (at_record worker failed_run worker_claim (taken_row "t0" ∷ []))
renewed-Keyed = subst (Keyed by_id) (sym renewed_twice) one
  where
    one : Keyed by_id (renewed_row ∷ [])
    one = unfold row_count in λ k. ground (arith, eq_iff "a" k)

renewed_found :
    scalar (by_id "a") (at_record worker failed_run worker_claim (taken_row "t0" ∷ []))
    ≡ some renewed_row
unfolding scalar
renewed_found = ap (scalar (by_id "a")) renewed_twice

run_job-Records_example :
    (after : SchedulerJobRow) × (scalar
        (by_id "a")
        (run_job worker failed_run worker_claim (taken_row "t0" ∷ [])).1
      ≡ some after)
    × Records worker.ledger
        (hours 240 + minutes 5)
        renewed_row
        failed_run.returned
        (guard_lost worker failed_run worker_claim (taken_row "t0" ∷ []))
        (run_job worker failed_run worker_claim (taken_row "t0" ∷ [])).0
        after
run_job-Records_example =
    run_job-Records worker failed_run worker_claim (taken_row "t0" ∷ []) renewed_row renewed-Keyed
      renewed_found refl (omega arith)

-- the row is running under another worker's token
superseded_writes_nothing_example :
    run_job worker quiet_run worker_claim (taken_row "t1" ∷ [])
    ≡ (false, at_record worker quiet_run worker_claim (taken_row "t1" ∷ []))
unfolding scalar run enter_guard guard_run renew_once renew_lease complete row_count
superseded_writes_nothing_example =
    superseded_writes_nothing worker quiet_run worker_claim (taken_row "t1" ∷ []) (taken_row "t1")
      (row-Keyed "t1") (row_found "t1") refl
