-- ===== src/Identity/Rows.antt =====
-- The tables that `EventIdentityService` of src/betmaxxing/ingestion/identity.py reads and writes, and
-- its results. Times are microseconds. The columns `surface` and `sets_to_win` of an event, which
-- the service neither reads nor writes, and the autoincrements it never reads are left out.
use betmaxxing.Prelude.{ℕ, String, Bool, ◌&&◌, Option, List, [], str_eq}

pub data Sport : Type 0 where
  football tennis : Sport

abbrev pub sport_text : Sport → String
sport_text football = "football"
sport_text tennis = "tennis"

pub data EventStatus : Type 0 where
  scheduled in_play finished postponed cancelled walkover retired unknown : EventStatus

abbrev pub status_text : EventStatus → String
status_text scheduled = "scheduled"
status_text in_play = "in_play"
status_text finished = "finished"
status_text postponed = "postponed"
status_text cancelled = "cancelled"
status_text walkover = "walkover"
status_text retired = "retired"
status_text unknown = "unknown"

pub record EventRow : Type 0 where
  pub canonical_id : String
  pub sport : String
  pub competition : String
  pub stage : Option String
  pub season : Option String
  pub home_name : String
  pub away_name : String
  pub home_canonical_id : String
  pub away_canonical_id : String
  pub participant_pair_key : Option String
  pub start_time_utc : ℕ
  pub status : String
  pub mapping_ambiguous : Bool
  pub source_ids : List (String × String)

pub record EventSourceMapRow : Type 0 where
  pub provider : String
  pub provider_event_id : String
  pub internal_id : String

pub record EventScheduleHistoryRow : Type 0 where
  pub internal_id : String
  pub start_time_utc : ℕ
  pub previous_start_time_utc : Option ℕ
  pub status : String
  pub recorded_at : ℕ

pub record EventMappingReviewRow : Type 0 where
  pub id : ℕ
  pub provider : String
  pub provider_event_id : String
  pub sport : String
  pub competition : String
  pub home_name : String
  pub away_name : String
  pub start_time_utc : ℕ
  pub candidate_internal_ids : List String
  pub detail : String
  pub recorded_at : ℕ
  pub resolved : Bool
  pub resolved_at : Option ℕ
  pub resolved_by : Option String
  pub resolved_internal_id : Option String

pub record ParticipantAliasRow : Type 0 where
  pub sport : String
  pub alias : String
  pub canonical_participant_id : String
  pub source : String

-- `next_review_id` is the autoincrement of the reviews.
pub record IdentityDb : Type 0 where
  pub events : List EventRow
  pub source_map : List EventSourceMapRow
  pub history : List EventScheduleHistoryRow
  pub reviews : List EventMappingReviewRow
  pub next_review_id : ℕ
  pub aliases : List ParticipantAliasRow

abbrev pub empty_identity : IdentityDb
empty_identity = record {
  events = [];
  source_map = [];
  history = [];
  reviews = [];
  next_review_id = 1;
  aliases = [];
}

pub data ResolutionStatus : Type 0 where
  resolved created ambiguous rejected : ResolutionStatus

pub record ResolvedEvent : Type 0 where
  pub status : ResolutionStatus
  pub internal_id : Option String
  pub detail : String
  pub candidate_internal_ids : List String
  pub rescheduled : Bool

-- the arguments of `resolve`
pub record ProviderEvent : Type 0 where
  pub provider : String
  pub provider_event_id : String
  pub sport : Sport
  pub competition : String
  pub home_name : String
  pub away_name : String
  pub start_time_utc : ℕ
  pub status : EventStatus
  pub stage : Option String
  pub season : Option String

-- a provider and its own id of an event: the columns of `uq_event_source` and `uq_mapping_review`
pub record SourceKey : Type 0 where
  pub provider : String
  pub provider_event_id : String

abbrev pub source_key : ProviderEvent → SourceKey
source_key e = record { provider = e.provider; provider_event_id = e.provider_event_id }

abbrev pub of_source : SourceKey → EventSourceMapRow → Bool
of_source k r = str_eq r.provider k.provider && str_eq r.provider_event_id k.provider_event_id

abbrev pub review_of : SourceKey → EventMappingReviewRow → Bool
review_of k r = str_eq r.provider k.provider && str_eq r.provider_event_id k.provider_event_id

abbrev pub by_canonical_id : String → EventRow → Bool
by_canonical_id id r = str_eq r.canonical_id id
