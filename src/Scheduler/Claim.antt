-- ===== src/Scheduler/Claim.antt =====
-- `JobLedger.claim_due` of src/betmaxxing/scheduler/ledger.py: the query, then one compare-and-swap
-- for each row that it returned. The clock's reading and the fresh tokens (`uuid4`) are arguments.
use betmaxxing.Prelude.{
  ℕ, suc, ◌+◌, String, Bool, true, false, ◌&&◌, Option, none, some, List, [], ◌∷◌, str_eq,
  opt_str_eq, leb, ltb, ◌==◌, if◌then◌else◌, take, sort_by,
}
use betmaxxing.Table.{select, update, row_count}
use betmaxxing.Scheduler.Row.{
  JobState, pending, running, failed_retryable, deferred, state_eq, SchedulerJobRow, Jobs, by_id,
  ClaimedJob, max_attempts, JobLedger,
}

-- `next_attempt_at IS NULL OR next_attempt_at <= now`
abbrev pub ready : ℕ → Option ℕ → Bool
ready moment none = true
ready moment (some t) = leb t moment

abbrev pub lease_expired : ℕ → Option ℕ → Bool
lease_expired moment none = false
lease_expired moment (some t) = leb t moment

-- the disjunction of the claim query, by the state that it names
abbrev pub open_to_claim : JobState → ℕ → SchedulerJobRow → Bool
open_to_claim pending moment r = ready moment r.next_attempt_at
open_to_claim deferred moment r = ready moment r.next_attempt_at
open_to_claim failed_retryable moment r =
    ltb r.attempts max_attempts && ready moment r.next_attempt_at
open_to_claim running moment r =
    ltb r.attempts max_attempts && lease_expired moment r.lease_expires_at
open_to_claim _ moment r = false

unfoldable pub is_due : ℕ → SchedulerJobRow → Bool
is_due moment r = leb r.scheduled_for moment && open_to_claim r.state moment r

-- The query of `claim_due`: filtered, then ordered, then limited.
unfoldable pub due_rows : ℕ → ℕ → Jobs → Jobs
due_rows moment limit jobs =
    take limit (sort_by (λ r. r.scheduled_for) (select (is_due moment) jobs))

-- the compare-and-swap condition on a row that was selected as `row`
abbrev pub unchanged_since : SchedulerJobRow → SchedulerJobRow → Bool
unchanged_since row r =
    by_id row.job_id r && (state_eq r.state row.state && opt_str_eq r.claim_token row.claim_token)

abbrev pub start : ℕ → ℕ → String → String → SchedulerJobRow → SchedulerJobRow → SchedulerJobRow
start moment expiry worker token row r = record r {
  state = running;
  attempts = row.attempts + 1;
  started_at = some moment;
  lease_owner = some worker;
  lease_expires_at = some expiry;
  claim_token = some token;
  next_attempt_at = none;
}

-- `row.scope_id or None`
abbrev scope_or_none : String → Option String
scope_or_none s = if str_eq s "" then none else some s

abbrev pub claim_of : ℕ → String → SchedulerJobRow → ClaimedJob
claim_of expiry token row = record {
  job_id = row.job_id;
  job_type = row.job_type;
  scheduled_for = row.scheduled_for;
  scope_id = scope_or_none row.scope_id;
  attempts = row.attempts + 1;
  claim_token = token;
  lease_expires_at = some expiry;
}

-- One round of the loop of `claim_due`: `row` is what the query returned.
unfoldable pub claim_one :
    ℕ → ℕ → String → String → SchedulerJobRow → Jobs → Option ClaimedJob × Jobs
claim_one moment expiry worker token row jobs = (
  if row_count (unchanged_since row) jobs == 1 then some (claim_of expiry token row) else none,
  update (unchanged_since row) (start moment expiry worker token row) jobs,
)

abbrev pub cons_some : Option ClaimedJob → List ClaimedJob → List ClaimedJob
cons_some none cs = cs
cons_some (some c) cs = c ∷ cs

-- The rounds; the n-th call of `new_claim_token` returns `tokens n`.
unfoldable pub claim_rows : ℕ → ℕ → String → (ℕ → String) → ℕ → Jobs → Jobs → List ClaimedJob × Jobs
claim_rows moment expiry worker tokens n [] jobs = ([], jobs)
claim_rows moment expiry worker tokens n (row ∷ rows) jobs =
    let (c, jobs') = claim_one moment expiry worker (tokens n) row jobs in
    let (cs, jobs'') = claim_rows moment expiry worker tokens (suc n) rows jobs' in
    (cons_some c cs, jobs'')

unfoldable pub claim_due : JobLedger → ℕ → String → ℕ → (ℕ → String) → Jobs → List ClaimedJob × Jobs
unfolding claim_rows
claim_due ledger moment worker limit tokens jobs =
    claim_rows moment (moment + ledger.lease) worker tokens 0 (due_rows moment limit jobs) jobs
