-- ===== src/Runner/Reset.antt =====
-- A budget refusal waits for the next UTC day, costs no attempt, or is the job's end.
use Prim.Native.String.{◌++◌ as text_append}
use betmaxxing.Prelude.{
  ℕ, ◌+◌, ◌*◌, ◌≤◌, ◌<◌, ◌≡◌, refl, ◌∙◌, String, true, false, some, List, arith, Bool-cases, false,
  inl, inr, ◌⊎◌, leb,
}
use betmaxxing.Table.{scalar, Keyed, scalar-update, scalar_sound}
use betmaxxing.Budget.Defs.{day_key}
use betmaxxing.Identity.Rows.{EventRow}
use betmaxxing.Scheduler.Row.{
  deferred, skipped_budget, SchedulerJobRow, Jobs, by_id, ClaimedJob, JobLedger, minutes,
}
use betmaxxing.Scheduler.Claim.{is_due}
use betmaxxing.Scheduler.Complete.{owned_by, complete, defer, skip, mark_deferred, mark_skipped}
use betmaxxing.Scheduler.Ownership.{owns, complete_of_found}
use betmaxxing.Scheduler.Trace.{committed}
use betmaxxing.Runner.Defs.{
  next_budget_reset, job_deadline, defer_for_budget, finish, skip_reason, defer_reason,
}
use betmaxxing.Runner.Deadline.{ValueEnds, job_deadline-ValueEnds}
use betmaxxing.Runner.Outcome.{budget_exhausted, RunnerTexts, ExecutionResult, outcome_text}

-- The next reset stands in the next UTC day, within ten minutes of its beginning.
pub reset-day_key :
    (texts : RunnerTexts) (moment : ℕ) (job_id : String)
    → (day_key (next_budget_reset texts moment job_id) ≡ day_key moment + 1)
      × (next_budget_reset texts moment job_id < (day_key moment + 1) * 86_400_000_000 + minutes 10)
unfolding next_budget_reset day_key
reset-day_key texts moment job_id = (omega arith, omega arith)

-- How a refusal for the budget leaves the row of a job.
pub record Waits (reset deadline t : ℕ) (r after : SchedulerJobRow) : Type 0 where
  pub no_attempt : after.attempts + 1 ≡ r.attempts
  pub outcome :
      ((after.state ≡ skipped_budget) × (deadline ≤ reset))
      ⊎ ((after.state ≡ deferred) × (after.next_attempt_at ≡ some reset) × (reset < deadline))
  pub not_due : is_due t after ≡ false

-- the row after its owner's completion
pub completed-found :
    (job : ClaimedJob) (f : SchedulerJobRow → SchedulerJobRow) (jobs : Jobs) (r : SchedulerJobRow)
    → ((id : String) (x : SchedulerJobRow) → by_id id (f x) ≡ by_id id x)
    → Keyed by_id jobs
    → scalar (by_id job.job_id) jobs ≡ some r
    → owns (some job.claim_token) r ≡ true
    → scalar (by_id job.job_id) (committed jobs (complete job.job_id (some job.claim_token) f jobs))
      ≡ some (f r)
completed-found job f jobs r keeps keyed found mine =
    let id = job.job_id in
    let token = some job.claim_token in
    let hit = scalar_sound (by_id id) jobs {r = r} found in
    rw (complete_of_found id token f jobs {r = r} keyed found, mine)
      (scalar-update (by_id id) (owned_by id token) f (keeps id) jobs ∙ rw (found, hit, mine) refl)

skipped_not_due : (t : ℕ) (r : SchedulerJobRow) → r.state ≡ skipped_budget → is_due t r ≡ false
unfolding is_due
skipped_not_due t r e = rw e (ground arith)

deferred_not_due :
    (t next : ℕ) (r : SchedulerJobRow)
    → r.state ≡ deferred
    → r.next_attempt_at ≡ some next
    → t < next
    → is_due t r ≡ false
unfolding is_due
deferred_not_due t next r e n late = rw (e, n) (ground arith)

earlier_day :
    (t reset now : ℕ) → day_key reset ≡ day_key now + 1 → day_key t ≤ day_key now → t < reset
unfolding day_key
earlier_day t reset now e h = omega arith

-- When the budget refuses the work of a job, and the worker still owns its row, which counts an
-- attempt: the attempt is given back; the job is skipped for good if its value ends (at the kick-off of
-- its event, or after two hours of grace) by the reset of the next UTC day, and is otherwise deferred to
-- exactly that reset; and at no instant up to the end of the current UTC day is it due.
pub budget_refusal-Waits :
    (texts : RunnerTexts) (ledger : JobLedger) (events : List EventRow) (job : ClaimedJob)
    (result : ExecutionResult) (now t : ℕ) (jobs : Jobs) (r : SchedulerJobRow)
    → Keyed by_id jobs
    → scalar (by_id job.job_id) jobs ≡ some r
    → owns (some job.claim_token) r ≡ true
    → 1 ≤ r.attempts
    → result.outcome ≡ budget_exhausted
    → day_key t ≤ day_key now
    → (deadline : ℕ) × (after : SchedulerJobRow) × ValueEnds events job deadline
      × (scalar (by_id job.job_id) (finish texts ledger events job result now jobs) ≡ some after)
      × Waits (next_budget_reset texts now job.job_id) deadline t r after
unfolding finish defer_for_budget mark_deferred mark_skipped
budget_refusal-Waits texts ledger events job result now t jobs r keyed found mine counted spent
      today =
    let reset = next_budget_reset texts now job.job_id in
    let deadline = job_deadline events job in
    let detail = text_append (outcome_text budget_exhausted) (text_append ": " result.detail) in
    let why = skip_reason texts detail reset deadline in
    let wait = defer_reason texts detail reset in
    elim (Bool-cases (leb deadline reset)) [
      | inl over ↦ (
        deadline,
        skip now why r,
        job_deadline-ValueEnds events job,
        rw (finish, spent, over)
            (completed-found job (skip now why) jobs r (λ i x. refl) keyed found mine),
        record {
          no_attempt = omega arith;
          outcome = inl (refl, ground arith);
          not_due = skipped_not_due t _ refl;
        },
      )
      | inr under ↦ (
        deadline,
        defer now wait reset r,
        job_deadline-ValueEnds events job,
        rw (finish, spent, under)
            (completed-found job (defer now wait reset) jobs r (λ i x. refl) keyed found mine),
        record {
          no_attempt = omega arith;
          outcome = inr (refl, refl, ground arith);
          not_due =
              deferred_not_due t reset _ refl refl
                (earlier_day t reset now (reset-day_key texts now job.job_id).0 today);
        },
      )
    ]
