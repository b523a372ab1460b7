-- ===== src/Runner/Outcome.antt =====
-- What src/betmaxxing/scheduler/runner.py makes of a collection's result, and the milestones that it plans.
use betmaxxing.Prelude.{
  ℕ, ◌+◌, ◌-◌, String, Bool, true, false, ◌||◌, Option, none, some, List, [], ◌∷◌, str_eq, leb, ltb,
  if◌then◌else◌,
}
use betmaxxing.Prelude.Int.{ℤ, pos, negsuc}
use betmaxxing.Scheduler.Row.{default_catchup_grace}

-- The number of the first two bytes of `hashlib.sha256(...)`, `datetime.isoformat`, `"; ".join`
-- and the `str` of a claim's optional texts.
pub record RunnerTexts : Type 0 where
  pub first_two_bytes : String → ℕ
  pub isoformat : ℕ → String
  pub join_warnings : List String → String

pub data CollectionStatus : Type 0 where
  status_ok collected_no_model no_candidate coverage_missing data_stale : CollectionStatus
  provider_error : CollectionStatus

abbrev pub collection_text : CollectionStatus → String
collection_text status_ok = "OK"
collection_text collected_no_model = "COLLECTED_NO_MODEL"
collection_text no_candidate = "NO_CANDIDATE"
collection_text coverage_missing = "COVERAGE_MISSING"
collection_text data_stale = "DATA_STALE"
collection_text provider_error = "PROVIDER_ERROR"

-- `SUCCESSFUL_STATUSES`
abbrev pub successful_statuses : CollectionStatus → Bool
successful_statuses provider_error = false
successful_statuses _ = true

pub data FailureKind : Type 0 where
  transient configuration budget : FailureKind

pub data ExecutionOutcome : Type 0 where
  success retryable_failure final_failure budget_exhausted lease_lost : ExecutionOutcome

abbrev pub outcome_text : ExecutionOutcome → String
outcome_text success = "SUCCESS"
outcome_text retryable_failure = "RETRYABLE_FAILURE"
outcome_text final_failure = "FINAL_FAILURE"
outcome_text budget_exhausted = "BUDGET_EXHAUSTED"
outcome_text lease_lost = "LEASE_LOST"

-- What `execute` reads of the result of `AcquisitionService.run`.
pub record AcquisitionReport : Type 0 where
  pub scan_id : String
  pub collection_status : CollectionStatus
  pub warnings : List String
  pub failure : Option FailureKind

pub record ExecutionResult : Type 0 where
  pub outcome : ExecutionOutcome
  pub scan_id : Option String
  pub collection_status : Option CollectionStatus
  pub detail : String

abbrev pub failure_outcome : Option FailureKind → ExecutionOutcome
failure_outcome (some budget) = budget_exhausted
failure_outcome (some configuration) = final_failure
failure_outcome _ = retryable_failure

abbrev pub text_or : String → String → String
text_or s t = if str_eq s "" then t else s

-- `execute`, on what the service returned
unfoldable pub execute : RunnerTexts → AcquisitionReport → ExecutionResult
execute texts r =
    if successful_statuses r.collection_status
    then record {
      outcome = success;
      scan_id = some r.scan_id;
      collection_status = some r.collection_status;
      detail = "";
    }
    else record {
      outcome = failure_outcome r.failure;
      scan_id = some r.scan_id;
      collection_status = some r.collection_status;
      detail = text_or (texts.join_warnings r.warnings) (collection_text r.collection_status);
    }

-- `_failure`, with the `repr` of what was raised
abbrev pub failure : String → ExecutionResult
failure raised = record {
  outcome = retryable_failure;
  scan_id = none;
  collection_status = none;
  detail = raised;
}

abbrev pub run_at : ℕ → ℤ → Option ℕ
run_at start (pos n) = if leb n start then some (start - n) else none
run_at start (negsuc n) = some (start + (n + 1))

-- `run_at >= start or run_at < earliest`
abbrev pub dropped : ℕ → ℕ → ℕ → Bool
dropped now start at = leb start at || ltb (at + default_catchup_grace) now

abbrev pub keep_milestone : String → Bool → ℕ → List (String × ℕ) → List (String × ℕ)
keep_milestone id drop at rest = if drop then rest else (id, at) ∷ rest

-- The inner loop of `milestones_for`; the offsets are `timedelta(hours=...)`, and `none` is the
-- OverflowError of an instant before the first one.
unfoldable pub event_milestones : ℕ → String → ℕ → List ℤ → Option (List (String × ℕ))
event_milestones now id start [] = some []
event_milestones now id start (o ∷ offsets) = elim (run_at start o) [
  | none ↦ none
  | some at ↦ elim (event_milestones now id start offsets) [
    | none ↦ none
    | some rest ↦ some (keep_milestone id (dropped now start at) at rest)
  ]
]

abbrev pub append_found : List (String × ℕ) → List (String × ℕ) → List (String × ℕ)
append_found [] ys = ys
append_found (x ∷ xs) ys = x ∷ append_found xs ys

-- `milestones_for`, on the id and the start of each event
unfoldable pub milestones_for : ℕ → List ℤ → List (String × ℕ) → Option (List (String × ℕ))
unfolding event_milestones
milestones_for now offsets [] = some []
milestones_for now offsets ((id, start) ∷ events) = elim (event_milestones now id start offsets) [
  | none ↦ none
  | some found ↦ elim (milestones_for now offsets events) [
    | none ↦ none
    | some rest ↦ some (append_found found rest)
  ]
]

-- `BUDGET_RESET_JITTER`, in seconds
abbrev pub budget_reset_jitter : ℕ
budget_reset_jitter = 600
