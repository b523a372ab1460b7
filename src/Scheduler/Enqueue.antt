-- ===== src/Scheduler/Enqueue.antt =====
-- `JobLedger.enqueue` and `occurrence_id` of src/betmaxxing/scheduler/ledger.py.
use Prim.Native.String.{◌++◌ as text_append}
use betmaxxing.Prelude.{
  ℕ, ◌-◌, ◌%◌, String, Bool, true, false, ◌&&◌, Option, none, some, [], ◌∷◌, ◌++◌, str_eq, ◌==◌,
  if◌then◌else◌,
}
use betmaxxing.Table.{scalar}
use betmaxxing.Scheduler.Row.{
  JobType, daily_scan, event_milestone, job_type_eq, pending, SchedulerJobRow, Jobs, by_id, minutes,
}

-- The standard library's `hashlib.sha256(...).hexdigest()[:32]` and `datetime.isoformat`.
pub record Digest : Type 0 where
  pub sha256_32 : String → String
  pub isoformat : ℕ → String

abbrev pub job_type_text : JobType → String
job_type_text daily_scan = "DAILY_SCAN"
job_type_text event_milestone = "EVENT_MILESTONE"

-- `.replace(second=0, microsecond=0)`
abbrev pub to_minute : ℕ → ℕ
to_minute t = t - t % minutes 1

unfoldable pub occurrence_id : Digest → JobType → ℕ → String → String
occurrence_id d job_type scheduled_for scope_id = d.sha256_32 (
    text_append (job_type_text job_type) (
      text_append "|"
        (text_append (d.isoformat (to_minute scheduled_for)) (text_append "|" scope_id))))

-- `scope_id or ""`
abbrev pub scope_text : Option String → String
scope_text none = ""
scope_text (some s) = s

-- the columns of `uq_scheduler_occurrence`
abbrev pub same_occurrence : JobType → ℕ → String → SchedulerJobRow → Bool
same_occurrence job_type when scope r =
    job_type_eq r.job_type job_type && (r.scheduled_for == when && str_eq r.scope_id scope)

abbrev is_some : {A : Type 0} → Option A → Bool
is_some none = false
is_some (some _) = true

abbrev pub pending_row : String → JobType → ℕ → String → ℕ → SchedulerJobRow
pending_row id job_type when scope moment = record {
  job_id = id;
  job_type = job_type;
  scheduled_for = when;
  scope_id = scope;
  state = pending;
  attempts = 0;
  created_at = moment;
  started_at = none;
  finished_at = none;
  lease_owner = none;
  lease_expires_at = none;
  claim_token = none;
  next_attempt_at = none;
  error = none;
  scan_id = none;
}

-- The second test is the unique constraint, whose `IntegrityError` is caught.
unfoldable pub enqueue : Digest → JobType → ℕ → Option String → ℕ → Jobs → Option String × Jobs
enqueue d job_type scheduled_for scope_id moment jobs =
    let scope = scope_text scope_id in
    let when = to_minute scheduled_for in
    let id = occurrence_id d job_type when scope in
    if is_some (scalar (by_id id) jobs)
    then (none, jobs)
    else if is_some (scalar (same_occurrence job_type when scope) jobs)
    then (none, jobs)
    else (some id, jobs ++ pending_row id job_type when scope moment ∷ [])
