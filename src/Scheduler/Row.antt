-- ===== src/Scheduler/Row.antt =====
-- The rows of `scheduler_jobs` (src/betmaxxing/storage/tables.py), the enumerations that they hold
-- and the claim that a worker is handed (src/betmaxxing/scheduler/ledger.py). Instants are
-- microseconds on the UTC axis.
use betmaxxing.Prelude.{
  ℕ, ◌*◌, String, Bool, true, false, ◌&&◌, not, Option, none, some, List, str_eq, ◌==◌,
}

pub data JobType : Type 0 where
  daily_scan event_milestone : JobType

abbrev pub job_type_eq : JobType → JobType → Bool
job_type_eq daily_scan daily_scan = true
job_type_eq event_milestone event_milestone = true
job_type_eq _ _ = false

pub data JobState : Type 0 where
  pending running succeeded failed_retryable failed_final deferred skipped_budget : JobState

abbrev state_rank : JobState → ℕ
state_rank pending = 0
state_rank running = 1
state_rank succeeded = 2
state_rank failed_retryable = 3
state_rank failed_final = 4
state_rank deferred = 5
state_rank skipped_budget = 6

abbrev pub state_eq : JobState → JobState → Bool
state_eq a b = state_rank a == state_rank b

-- `CLAIMABLE_STATES`
abbrev pub claimable_states : JobState → Bool
claimable_states pending = true
claimable_states failed_retryable = true
claimable_states running = true
claimable_states deferred = true
claimable_states _ = false

pub record SchedulerJobRow : Type 0 where
  pub job_id : String
  pub job_type : JobType
  pub scheduled_for : ℕ
  pub scope_id : String
  pub state : JobState
  pub attempts : ℕ
  pub created_at : ℕ
  pub started_at : Option ℕ
  pub finished_at : Option ℕ
  pub lease_owner : Option String
  pub lease_expires_at : Option ℕ
  pub claim_token : Option String
  pub next_attempt_at : Option ℕ
  pub error : Option String
  pub scan_id : Option String

abbrev pub Jobs : Type 0
Jobs = List SchedulerJobRow

-- the primary key
abbrev pub by_id : String → SchedulerJobRow → Bool
by_id id r = str_eq r.job_id id

pub record ClaimedJob : Type 0 where
  pub job_id : String
  pub job_type : JobType
  pub scheduled_for : ℕ
  pub scope_id : Option String
  pub attempts : ℕ
  pub claim_token : String
  pub lease_expires_at : Option ℕ

abbrev pub has_text : Option String → Bool
has_text none = false
has_text (some s) = not (str_eq s "")

unfoldable pub is_event_scoped : ClaimedJob → Bool
is_event_scoped job = job_type_eq job.job_type event_milestone && has_text job.scope_id

-- Durations, in microseconds.
abbrev pub seconds : ℕ → ℕ
seconds n = n * 1_000_000

abbrev pub minutes : ℕ → ℕ
minutes n = seconds (n * 60)

abbrev pub hours : ℕ → ℕ
hours n = minutes (n * 60)

abbrev pub default_lease : ℕ
default_lease = minutes 15

abbrev pub default_catchup_grace : ℕ
default_catchup_grace = hours 2

abbrev pub max_attempts : ℕ
max_attempts = 3

abbrev pub default_retry_backoff : ℕ
default_retry_backoff = minutes 5

pub data LedgerError : Type 0 where
  stale_lease : LedgerError

-- `JobLedger.__init__`
pub record JobLedger : Type 0 where
  pub lease : ℕ
  pub retry_backoff : ℕ
