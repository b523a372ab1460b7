-- ===== src/Scheduler/Retry.antt =====
-- Attempts and delays: the backoff of a failure, and a deferral that costs no attempt.
use betmaxxing.Prelude.{
  ℕ, ◌+◌, ◌-◌, ◌*◌, ◌^◌, String, ◌≡◌, refl, Bool, true, false, ◌&&◌, ◌||◌, not, Option, none, some,
  arith, opt_str_eq_iff, leb, ltb, Bool-cases, inl, inr, ok, str_eq_refl,
}
use betmaxxing.Table.{scalar, update, Keyed, scalar-update, scalar_sound}
use betmaxxing.Scheduler.Row.{
  running, deferred, SchedulerJobRow, Jobs, by_id, ClaimedJob, JobLedger, max_attempts,
}
use betmaxxing.Scheduler.Claim.{is_due, start, claim_one}
use betmaxxing.Scheduler.Complete.{
  claimed, named, owned_by, fail, mark_failed, defer, mark_deferred, backoff_for,
}
use betmaxxing.Scheduler.Rounds.{scalar-claim_one, claim_one-Keyed, unchanged_self}
use betmaxxing.Scheduler.Ownership.{owns, owner, complete_of_found}

-- The row after a completion by its owner.
scalar_complete :
    (id : String) (token : Option String) (f : SchedulerJobRow → SchedulerJobRow) (jobs : Jobs)
    (r : SchedulerJobRow)
    → ((x : SchedulerJobRow) → (f x).job_id ≡ x.job_id)
    → scalar (by_id id) jobs ≡ some r
    → owns token r ≡ true
    → scalar (by_id id) (update (owned_by id token) f jobs) ≡ some (f r)
scalar_complete id token f jobs r keeps found mine =
    rw
      (
        scalar-update (by_id id) (owned_by id token) f (λ x. rw (keeps x) refl) jobs,
        found,
        scalar_sound (by_id id) jobs found,
        mine,
      )
      refl

-- when the row of a failed attempt may be claimed again
abbrev pub retry_due : JobLedger → Bool → ℕ → SchedulerJobRow → ℕ → Bool
retry_due ledger retryable moment r now =
    retryable
    && (ltb r.attempts max_attempts
        && (leb r.scheduled_for now
            && leb (moment + ledger.retry_backoff * 2 ^ (r.attempts - 1)) now))

fail_due :
    (ledger : JobLedger) (moment : ℕ) (error : String) (retryable : Bool) (r : SchedulerJobRow)
    (now : ℕ)
    → is_due now (
        fail moment error
          (not retryable || leb max_attempts r.attempts)
          (backoff_for ledger r.attempts)
          r)
      ≡ retry_due ledger retryable moment r now
unfolding is_due backoff_for
fail_due ledger moment error false r now = ground arith
fail_due ledger moment error true r now = elim (Bool-cases (leb max_attempts r.attempts)) [
  | inl e ↦ rw e (ground arith)
  | inr e ↦ rw e (ground arith)
]

-- In a table with unique ids, a failure that its owner reports is recorded, and its attempts stay.
-- With no delay of its own, the job is due again exactly if the failure was retryable, this was not
-- its third attempt, its scheduled instant has passed, and the base delay, doubled for each attempt
-- before, is over.
pub mark_failed_retry :
    (ledger : JobLedger) (c : ClaimedJob) (error : String) (retryable : Bool) (moment : ℕ)
    (jobs : Jobs) (r : SchedulerJobRow)
    → Keyed by_id jobs
    → scalar (by_id c.job_id) jobs ≡ some r
    → r.state ≡ running
    → r.claim_token ≡ some c.claim_token
    → (after : Jobs) × (r' : SchedulerJobRow) × (mark_failed ledger
          (claimed c)
          error
          retryable
          none
          moment
          jobs
        ≡ ok after)
      × (scalar (by_id c.job_id) after ≡ some r')
      × (r'.attempts ≡ r.attempts)
      × ((now : ℕ) → is_due now r' ≡ retry_due ledger retryable moment r now)
unfolding mark_failed
mark_failed_retry ledger c error retryable moment jobs r keyed found is_running token =
    let mine = owner c r is_running token in
    let f =
      fail moment error (not retryable || leb max_attempts r.attempts)
        (backoff_for ledger r.attempts) in
    (
      update (owned_by c.job_id (some c.claim_token)) f jobs,
      f r,
      rw (found, mark_failed)
          (rw (complete_of_found c.job_id (some c.claim_token) f jobs keyed found, mine) refl),
      scalar_complete c.job_id (some c.claim_token) f jobs r (λ x. refl) found mine,
      refl,
      fail_due ledger moment error retryable r,
    )

-- In a table with unique ids, a deferral consumes no attempt: a job that is claimed and then deferred by its holder has the
-- attempts that it had before the claim, and waits until the instant that was given.
pub defer_keeps_attempts :
    (now expiry next at : ℕ) (worker token reason : String) (row : SchedulerJobRow) (jobs : Jobs)
    → Keyed by_id jobs
    → scalar (by_id row.job_id) jobs ≡ some row
    → (after : Jobs) × (r' : SchedulerJobRow) × (mark_deferred
          (named row.job_id (some token))
          reason
          next
          at
          (claim_one now expiry worker token row jobs).1
        ≡ ok after)
      × (scalar (by_id row.job_id) after ≡ some r')
      × (r'.state ≡ deferred)
      × (r'.attempts ≡ row.attempts)
      × (r'.next_attempt_at ≡ some next)
unfolding mark_deferred
defer_keeps_attempts now expiry next at worker token reason row jobs keyed found =
    let jobs' = (claim_one now expiry worker token row jobs).1 in
    let r = start now expiry worker token row row in
    let held : scalar (by_id row.job_id) jobs' ≡ some r =
      rw
        (
          scalar-claim_one now expiry worker token row jobs row.job_id,
          found,
          str_eq_refl row.job_id,
          unchanged_self row,
        )
        refl in
    let mine : owns (some token) r ≡ true = (opt_str_eq_iff (some token) (some token)).1 refl in
    let f = defer at reason next in
    (
      update (owned_by row.job_id (some token)) f jobs',
      f r,
      rw
          (
            complete_of_found row.job_id (some token) f jobs'
                (claim_one-Keyed now expiry worker token row jobs keyed) held,
            mine,
          )
          refl,
      scalar_complete row.job_id (some token) f jobs' r (λ x. refl) held mine,
      refl,
      omega arith,
      refl,
    )
