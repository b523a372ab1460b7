-- ===== src/Runner/Defs.antt =====
-- What src/betmaxxing/scheduler/runner.py records of a job that did not succeed: its deadline, the end of
-- a budget refusal, and the outcome.
use Prim.Native.String.{◌++◌ as text_append}
use betmaxxing.Prelude.{
  ℕ, ◌+◌, ◌-◌, ◌%◌, String, true, false, Option, none, some, List, leb, if◌then◌else◌, Result,
}
use betmaxxing.Table.{scalar}
use betmaxxing.Identity.Rows.{EventRow, by_canonical_id}
use betmaxxing.Scheduler.Row.{
  Jobs, ClaimedJob, is_event_scoped, JobLedger, LedgerError, hours, seconds, default_catchup_grace,
}
use betmaxxing.Scheduler.Complete.{claimed, mark_failed, mark_deferred, mark_skipped}
use betmaxxing.Scheduler.Trace.{committed}
use betmaxxing.Runner.Outcome.{
  budget_exhausted, final_failure, RunnerTexts, ExecutionOutcome, outcome_text, ExecutionResult,
  budget_reset_jitter,
}

-- `next_budget_reset`
unfoldable pub next_budget_reset : RunnerTexts → ℕ → String → ℕ
next_budget_reset texts moment job_id =
    let tomorrow = moment + hours 24 in
    let boundary = tomorrow - tomorrow % hours 24 in
    boundary + seconds (texts.first_two_bytes job_id % budget_reset_jitter)

abbrev pub event_start : List EventRow → Option String → Option ℕ
event_start events none = none
event_start events (some id) = elim (scalar (by_canonical_id id) events) [
  | none ↦ none
  | some r ↦ some r.start_time_utc
]

-- `_job_deadline`, which never returns None
unfoldable pub job_deadline : List EventRow → ClaimedJob → ℕ
job_deadline events job =
    let otherwise = job.scheduled_for + default_catchup_grace in
    if is_event_scoped job
    then elim (event_start events job.scope_id) [ none ↦ otherwise | some start ↦ start ]
    else otherwise

abbrev pub skip_reason : RunnerTexts → String → ℕ → ℕ → String
skip_reason texts detail reset deadline = text_append detail (
    text_append " — budget épuisé et l'occurrence perd sa valeur avant le prochain reset (" (
      text_append (texts.isoformat reset) (
        text_append " > échéance "
          (text_append (texts.isoformat deadline) "). Aucune nouvelle tentative."))))

abbrev pub defer_reason : RunnerTexts → String → ℕ → String
defer_reason texts detail reset = text_append detail (
    text_append " — report au prochain reset budgétaire UTC ("
      (text_append (texts.isoformat reset) ")."))

-- `_defer_for_budget`
unfoldable pub defer_for_budget :
    RunnerTexts → List EventRow → ClaimedJob → String → ℕ → Jobs → Result LedgerError Jobs
unfolding next_budget_reset job_deadline
defer_for_budget texts events job detail now jobs =
    let reset = next_budget_reset texts now job.job_id in
    let deadline = job_deadline events job in
    if leb deadline reset
    then mark_skipped (claimed job) (skip_reason texts detail reset deadline) now jobs
    else mark_deferred (claimed job) (defer_reason texts detail reset) reset now jobs

abbrev pub finish_with :
    RunnerTexts
    → JobLedger
    → List EventRow
    → ClaimedJob
    → ExecutionOutcome
    → String
    → ℕ
    → Jobs
    → Result LedgerError Jobs
finish_with texts ledger events job budget_exhausted detail now jobs =
    defer_for_budget texts events job detail now jobs
finish_with texts ledger events job final_failure detail now jobs =
    mark_failed ledger (claimed job) detail false none now jobs
finish_with texts ledger events job _ detail now jobs =
    mark_failed ledger (claimed job) detail true none now jobs

-- `_finish`, which tolerates a lease that has moved on
unfoldable pub finish :
    RunnerTexts → JobLedger → List EventRow → ClaimedJob → ExecutionResult → ℕ → Jobs → Jobs
unfolding defer_for_budget
finish texts ledger events job result now jobs =
    let detail = text_append (outcome_text result.outcome) (text_append ": " result.detail) in
    committed jobs (finish_with texts ledger events job result.outcome detail now jobs)
