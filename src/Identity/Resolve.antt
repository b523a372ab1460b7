-- ===== src/Identity/Resolve.antt =====
-- `resolve` of src/betmaxxing/ingestion/identity.py and the four ways in which it ends. Each call is one
-- transaction. `fresh` is the `uuid4().hex[:20]` of a new identity and `now` the clock's reading.
use Prim.Native.String.{◌++◌ as text_append}
use betmaxxing.Prelude.{
  ℕ, ◌+◌, String, Bool, false, ◌||◌, Option, none, some, List, [], ◌∷◌, ◌++◌, map, str_eq,
  if◌then◌else◌, length, sort_with, Result, ok, err,
}
use betmaxxing.Table.{scalar, update}
use betmaxxing.Names.Defs.{Python, normalize_participant}
use betmaxxing.Identity.Rows.{
  resolved, created, ambiguous, rejected, sport_text, status_text, EventRow,
  EventScheduleHistoryRow, EventMappingReviewRow, IdentityDb, ResolvedEvent, ProviderEvent,
  source_key, of_source, review_of, by_canonical_id,
}
use betmaxxing.Identity.Alias.{is_blank, participant_pair_key}
use betmaxxing.Identity.Match.{match_events}
use betmaxxing.Identity.Mapped.{
  IdentityError, id_taken, answer, map_row, link, refresh_mapped, text_leb,
}

-- `sorted` of texts
unfoldable pub sort_texts : List String → List String
sort_texts texts = sort_with text_leb texts

abbrev pub ambiguity_detail : Python → List String → String → ℕ → String
ambiguity_detail python ids key start = text_append (python.str_of (length ids)) (
    text_append " événements existants correspondent à " (
      text_append key (
        text_append " autour de " (
          text_append (python.isoformat start)
            " — rapprochement refusé, aucun rattachement effectué."))))

abbrev pub new_review : ℕ → ProviderEvent → List String → String → ℕ → EventMappingReviewRow
new_review id e ids detail now = record {
  id = id;
  provider = e.provider;
  provider_event_id = e.provider_event_id;
  sport = sport_text e.sport;
  competition = e.competition;
  home_name = e.home_name;
  away_name = e.away_name;
  start_time_utc = e.start_time_utc;
  candidate_internal_ids = ids;
  detail = detail;
  recorded_at = now;
  resolved = false;
  resolved_at = none;
  resolved_by = none;
  resolved_internal_id = none;
}

abbrev pub requeued : List String → String → ℕ → EventMappingReviewRow → EventMappingReviewRow
requeued ids detail now r = record r {
  candidate_internal_ids = ids;
  detail = detail;
  recorded_at = now;
}

abbrev pub queue :
    Option EventMappingReviewRow
    → ProviderEvent
    → List String
    → String
    → ℕ
    → IdentityDb
    → IdentityDb
queue none e ids detail now db = record db {
  reviews = db.reviews ++ new_review db.next_review_id e ids detail now ∷ [];
  next_review_id = db.next_review_id + 1;
}
queue (some r) e ids detail now db = record db {
  reviews = update (review_of (source_key e)) (requeued ids detail now) db.reviews;
}

-- `_record_ambiguity`
unfoldable pub record_ambiguity :
    Python → ProviderEvent → List EventRow → ℕ → IdentityDb → ResolvedEvent × IdentityDb
unfolding sort_texts
record_ambiguity python e candidates now db =
    let ids = sort_texts (map (λ r. r.canonical_id) candidates) in
    let key = participant_pair_key python e.sport e.home_name e.away_name in
    let detail = ambiguity_detail python ids key e.start_time_utc in
    (
      record {
        status = ambiguous;
        internal_id = none;
        detail = detail;
        candidate_internal_ids = ids;
        rescheduled = false;
      },
      queue (scalar (review_of (source_key e)) db.reviews) e ids detail now db,
    )

abbrev pub participant : Python → ProviderEvent → String → String
participant python e name =
    text_append (sport_text e.sport) (text_append ":" (normalize_participant python name))

abbrev pub new_event : Python → String → ProviderEvent → EventRow
new_event python id e = record {
  canonical_id = id;
  sport = sport_text e.sport;
  competition = e.competition;
  stage = e.stage;
  season = e.season;
  home_name = e.home_name;
  away_name = e.away_name;
  home_canonical_id = participant python e e.home_name;
  away_canonical_id = participant python e e.away_name;
  participant_pair_key = some (participant_pair_key python e.sport e.home_name e.away_name);
  start_time_utc = e.start_time_utc;
  status = status_text e.status;
  mapping_ambiguous = false;
  source_ids = (e.provider, e.provider_event_id) ∷ [];
}

abbrev pub first_trail : String → ProviderEvent → ℕ → EventScheduleHistoryRow
first_trail id e now = record {
  internal_id = id;
  start_time_utc = e.start_time_utc;
  previous_start_time_utc = none;
  status = status_text e.status;
  recorded_at = now;
}

-- `new_internal_id`
abbrev pub new_internal_id : String → String
new_internal_id fresh = text_append "evt_" fresh

-- `_create`
unfoldable pub create_event :
    Python
    → ProviderEvent
    → String
    → ℕ
    → IdentityDb
    → Result IdentityError ResolvedEvent × IdentityDb
create_event python e fresh now db =
    let id = new_internal_id fresh in
    elim (scalar (by_canonical_id id) db.events) [
      | some r ↦ (err id_taken, db)
      | none ↦ (
        ok (answer created id),
        record db {
          events = db.events ++ new_event python id e ∷ [];
          source_map = db.source_map ++ map_row (source_key e) id ∷ [];
          history = db.history ++ first_trail id e now ∷ [];
        },
      )
    ]

abbrev pub without_error :
    ResolvedEvent × IdentityDb → Result IdentityError ResolvedEvent × IdentityDb
without_error (r, db) = (ok r, db)

-- the branch on the number of candidates
abbrev pub decide :
    Python
    → ProviderEvent
    → String
    → ℕ
    → List EventRow
    → IdentityDb
    → Result IdentityError ResolvedEvent × IdentityDb
decide python e fresh now [] db = create_event python e fresh now db
decide python e fresh now (r ∷ []) db =
    (ok (answer resolved r.canonical_id), link r.canonical_id (source_key e) db)
decide python e fresh now (r ∷ s ∷ rows) db =
    without_error (record_ambiguity python e (r ∷ s ∷ rows) now db)

abbrev pub refused : ResolvedEvent
refused = record {
  status = rejected;
  internal_id = none;
  detail = "identifiant fournisseur ou participants manquants.";
  candidate_internal_ids = [];
  rescheduled = false;
}

abbrev pub unusable : Python → ProviderEvent → Bool
unusable python e =
    str_eq e.provider_event_id "" || (is_blank python e.home_name || is_blank python e.away_name)

-- `resolve`
unfoldable pub resolve :
    Python
    → ProviderEvent
    → String
    → ℕ
    → IdentityDb
    → Result IdentityError ResolvedEvent × IdentityDb
unfolding create_event link record_ambiguity refresh_mapped
resolve python e fresh now db =
    if unusable python e
    then (ok refused, db)
    else elim (scalar (of_source (source_key e)) db.source_map) [
      | some mapped ↦
          without_error (refresh_mapped mapped.internal_id e.start_time_utc e.status now db)
      | none ↦ decide python e fresh now (match_events python e db) db
    ]
