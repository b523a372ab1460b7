-- ===== src/Scheduler/Complete.antt =====
-- The completions, the renewal and the inspections of `JobLedger` in
-- src/betmaxxing/scheduler/ledger.py. Each is one transaction; the clock's reading is an argument.
use betmaxxing.Prelude.{
  ℕ, zero, suc, ◌+◌, ◌-◌, ◌*◌, ◌^◌, String, Bool, ◌&&◌, ◌||◌, not, Option, none, some, str_eq,
  opt_str_eq, leb, ◌==◌, if◌then◌else◌, length, Result, ok, err,
}
use betmaxxing.Table.{scalar, select, update, row_count}
use betmaxxing.Scheduler.Row.{
  JobState, pending, running, succeeded, failed_retryable, failed_final, deferred, skipped_budget,
  state_eq, SchedulerJobRow, Jobs, by_id, ClaimedJob, max_attempts, LedgerError, stale_lease,
  JobLedger,
}

-- A job is named by its claim, or by its id and a token.
pub data JobRef : Type 0 where
  claimed : ClaimedJob → JobRef
  named : String → Option String → JobRef

abbrev pub identify : JobRef → String × Option String
identify (claimed job) = (job.job_id, some job.claim_token)
identify (named id token) = (id, token)

-- the condition of `_complete`
abbrev pub owned_by : String → Option String → SchedulerJobRow → Bool
owned_by id token r = by_id id r && (state_eq r.state running && opt_str_eq r.claim_token token)

-- `_complete`: a refusal rolls the transaction back.
unfoldable pub complete :
    String → Option String → (SchedulerJobRow → SchedulerJobRow) → Jobs → Result LedgerError Jobs
complete id token values jobs =
    if row_count (owned_by id token) jobs == 1
    then ok (update (owned_by id token) values jobs)
    else err stale_lease

abbrev or_keep : Option String → Option String → Option String
or_keep none old = old
or_keep (some s) old = if str_eq s "" then old else some s

abbrev pub succeed : ℕ → Option String → SchedulerJobRow → SchedulerJobRow
succeed moment scan_id r = record r {
  state = succeeded;
  finished_at = some moment;
  lease_owner = none;
  lease_expires_at = none;
  claim_token = none;
  next_attempt_at = none;
  error = none;
  scan_id = or_keep scan_id r.scan_id;
}

unfoldable pub mark_succeeded : JobRef → Option String → ℕ → Jobs → Result LedgerError Jobs
unfolding complete
mark_succeeded job scan_id moment jobs =
    let (id, token) = identify job in complete id token (succeed moment scan_id) jobs

-- `text[:n]`
take_text : ℕ → String → String
take_text zero s = ""
take_text (suc n) String.[] = ""
take_text (suc n) (String.◌∷◌ c s) = String.◌∷◌ c (take_text n s)

unfoldable pub clip : String → String
unfolding take_text
clip s = take_text 2000 s

-- `_backoff_for`; `-` on ℕ stops at 0, as `max(attempts - 1, 0)` does
unfoldable pub backoff_for : JobLedger → ℕ → ℕ
backoff_for ledger attempts = ledger.retry_backoff * 2 ^ (attempts - 1)

abbrev or_default : Option ℕ → ℕ → ℕ
or_default none d = d
or_default (some t) d = t

abbrev pub fail : ℕ → String → Bool → ℕ → SchedulerJobRow → SchedulerJobRow
fail moment error final backoff r = record r {
  state = if final then failed_final else failed_retryable;
  finished_at = some moment;
  error = some (clip error);
  lease_owner = none;
  lease_expires_at = none;
  claim_token = none;
  next_attempt_at = if final then none else some (moment + backoff);
}

unfoldable pub mark_failed :
    JobLedger → JobRef → String → Bool → Option ℕ → ℕ → Jobs → Result LedgerError Jobs
unfolding complete
mark_failed ledger job error retryable retry_after moment jobs =
    let (id, token) = identify job in
    elim (scalar (by_id id) jobs) [
      | none ↦ err stale_lease
      | some row ↦
          let final = not retryable || leb max_attempts row.attempts in
          let backoff = or_default retry_after (backoff_for ledger row.attempts) in
          complete id token (fail moment error final backoff) jobs
    ]

-- `_decremented_attempts` is `attempts - 1`, floored at 0, read from the row that is updated.
abbrev pub defer : ℕ → String → ℕ → SchedulerJobRow → SchedulerJobRow
defer moment reason next_attempt_at r = record r {
  state = deferred;
  finished_at = some moment;
  error = some (clip reason);
  lease_owner = none;
  lease_expires_at = none;
  claim_token = none;
  next_attempt_at = some next_attempt_at;
  attempts = r.attempts - 1;
}

unfoldable pub mark_deferred : JobRef → String → ℕ → ℕ → Jobs → Result LedgerError Jobs
unfolding complete
mark_deferred job reason next_attempt_at moment jobs =
    let (id, token) = identify job in complete id token (defer moment reason next_attempt_at) jobs

abbrev pub skip : ℕ → String → SchedulerJobRow → SchedulerJobRow
skip moment reason r = record r {
  state = skipped_budget;
  finished_at = some moment;
  error = some (clip reason);
  lease_owner = none;
  lease_expires_at = none;
  claim_token = none;
  next_attempt_at = none;
  attempts = r.attempts - 1;
}

unfoldable pub mark_skipped : JobRef → String → ℕ → Jobs → Result LedgerError Jobs
unfolding complete
mark_skipped job reason moment jobs =
    let (id, token) = identify job in complete id token (skip moment reason) jobs

abbrev pub renew : ℕ → SchedulerJobRow → SchedulerJobRow
renew expiry r = record r { lease_expires_at = some expiry }

-- The instant that it returns is `moment + lease`.
unfoldable pub renew_lease : JobLedger → ClaimedJob → ℕ → Jobs → Result LedgerError Jobs
unfolding complete
renew_lease ledger job moment jobs =
    complete job.job_id (some job.claim_token) (renew (moment + ledger.lease)) jobs

unfoldable pub assert_owns : ClaimedJob → Jobs → Result LedgerError (Unit {0})
assert_owns job jobs = elim (scalar (by_id job.job_id) jobs) [
  | none ↦ err stale_lease
  | some row ↦
      if not (state_eq row.state running) || not (opt_str_eq row.claim_token (some job.claim_token))
      then err stale_lease
      else ok tt
]

unfoldable pub get_state : String → Jobs → Option JobState
get_state id jobs = elim (scalar (by_id id) jobs) [ none ↦ none | some row ↦ some row.state ]

unfoldable pub pending_count : ℕ → Jobs → ℕ
pending_count moment jobs =
    length (select (λ r. state_eq r.state pending && leb r.scheduled_for moment) jobs)
