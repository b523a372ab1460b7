-- ===== src/Identity/Review.antt =====
-- The operator's side of src/betmaxxing/ingestion/identity.py: `resolve_review` and what lists the
-- reviews, the aliases and the history of an event.
use Prim.Native.String.{◌++◌ as text_append, compare}
use Prim.Native.Nat.{Ordering}
use betmaxxing.Prelude.{
  ℕ, String, Bool, true, false, ◌&&◌, not, Option, none, some, List, map, str_eq, ◌==◌,
  if◌then◌else◌, sort_by, sort_with, Result, ok, err,
}
use betmaxxing.Table.{scalar, select, update}
use betmaxxing.Names.Defs.{Python, is_among}
use betmaxxing.Identity.Rows.{
  resolved, EventScheduleHistoryRow, EventMappingReviewRow, ParticipantAliasRow, IdentityDb,
  ResolvedEvent, SourceKey, of_source, by_canonical_id,
}
use betmaxxing.Identity.Mapped.{answer, link, text_leb}

-- `ReviewNotFound`, `ReviewAlreadyResolved`, and the three reasons of `ReviewResolutionRejected`
pub data ReviewError : Type 0 where
  review_not_found already_resolved not_a_candidate event_gone already_attached : ReviewError

abbrev pub by_review_id : ℕ → EventMappingReviewRow → Bool
by_review_id id r = r.id == id

abbrev pub review_key : EventMappingReviewRow → SourceKey
review_key r = record { provider = r.provider; provider_event_id = r.provider_event_id }

abbrev pub closed_by : String → String → ℕ → EventMappingReviewRow → EventMappingReviewRow
closed_by id operator moment r = record r {
  resolved = true;
  resolved_at = some moment;
  resolved_by = some operator;
  resolved_internal_id = some id;
}

-- the validations of an open review, in order
unfoldable pub review_problem : String → EventMappingReviewRow → IdentityDb → Option ReviewError
review_problem id r db =
    if r.resolved
    then some already_resolved
    else if not (is_among id r.candidate_internal_ids)
    then some not_a_candidate
    else elim (scalar (by_canonical_id id) db.events) [
      | none ↦ some event_gone
      | some event ↦ elim (scalar (of_source (review_key r)) db.source_map) [
        | none ↦ none
        | some clash ↦ some already_attached
      ]
    ]

abbrev pub settle_review : ℕ → String → String → ℕ → EventMappingReviewRow → IdentityDb → IdentityDb
settle_review review_id id operator moment r db =
    let linked = link id (review_key r) db in
    record linked {
      reviews = update (by_review_id review_id) (closed_by id operator moment) linked.reviews;
    }

-- `resolve_review`
unfoldable pub resolve_review :
    ℕ → String → String → ℕ → IdentityDb → Result ReviewError ResolvedEvent × IdentityDb
unfolding review_problem link
resolve_review review_id id operator moment db = elim (scalar (by_review_id review_id) db.reviews) [
  | none ↦ (err review_not_found, db)
  | some r ↦ elim (review_problem id r db) [
    | some problem ↦ (err problem, db)
    | none ↦ (ok (answer resolved id), settle_review review_id id operator moment r db)
  ]
]

pub record ReviewDocument : Type 0 where
  pub id : ℕ
  pub provider : String
  pub provider_event_id : String
  pub sport : String
  pub competition : String
  pub label : String
  pub start_time_utc : String
  pub candidate_internal_ids : List String
  pub detail : String
  pub resolved : Bool
  pub resolved_at : Option String
  pub resolved_by : Option String
  pub resolved_internal_id : Option String

abbrev pub shown : Python → Option ℕ → Option String
shown python none = none
shown python (some t) = some (python.isoformat t)

-- `_review_document`
unfoldable pub review_document : Python → EventMappingReviewRow → ReviewDocument
review_document python r = record {
  id = r.id;
  provider = r.provider;
  provider_event_id = r.provider_event_id;
  sport = r.sport;
  competition = r.competition;
  label = text_append r.home_name (text_append " - " r.away_name);
  start_time_utc = python.isoformat r.start_time_utc;
  candidate_internal_ids = r.candidate_internal_ids;
  detail = r.detail;
  resolved = r.resolved;
  resolved_at = shown python r.resolved_at;
  resolved_by = r.resolved_by;
  resolved_internal_id = r.resolved_internal_id;
}

-- `review`
unfoldable pub review : Python → ℕ → IdentityDb → Result ReviewError ReviewDocument
unfolding review_document
review python review_id db = elim (scalar (by_review_id review_id) db.reviews) [
  | none ↦ err review_not_found
  | some r ↦ ok (review_document python r)
]

-- `pending_review`
unfoldable pub pending_review : Python → IdentityDb → List ReviewDocument
unfolding review_document
pending_review python db =
    map (review_document python)
      (sort_by (λ r. r.recorded_at) (select (λ r. not r.resolved) db.reviews))

pub record ScheduleEntry : Type 0 where
  pub start_time_utc : String
  pub previous_start_time_utc : Option String
  pub status : String
  pub recorded_at : String

abbrev pub schedule_entry : Python → EventScheduleHistoryRow → ScheduleEntry
schedule_entry python r = record {
  start_time_utc = python.isoformat r.start_time_utc;
  previous_start_time_utc = shown python r.previous_start_time_utc;
  status = r.status;
  recorded_at = python.isoformat r.recorded_at;
}

-- `schedule_history`
unfoldable pub schedule_history : Python → String → IdentityDb → List ScheduleEntry
schedule_history python id db =
    map (schedule_entry python)
      (sort_by (λ r. r.recorded_at) (select (λ r. str_eq r.internal_id id) db.history))

-- `ORDER BY sport, source, alias`
abbrev pub alias_leb : ParticipantAliasRow → ParticipantAliasRow → Bool
alias_leb r s = elim (compare r.sport s.sport) [
  | Ordering.lt ↦ true
  | Ordering.gt ↦ false
  | Ordering.eq ↦ elim (compare r.source s.source) [
    | Ordering.lt ↦ true
    | Ordering.gt ↦ false
    | Ordering.eq ↦ text_leb r.alias s.alias
  ]
]

-- an argument that is absent or empty filters nothing
abbrev pub wanted : Option String → String → Bool
wanted none text = true
wanted (some filter) text = if str_eq filter "" then true else str_eq text filter

-- `aliases`
unfoldable pub aliases : Option String → Option String → IdentityDb → List ParticipantAliasRow
aliases sport source db =
    sort_with alias_leb (select (λ r. wanted sport r.sport && wanted source r.source) db.aliases)
