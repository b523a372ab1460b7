-- ===== src/Identity/Mapped.antt =====
-- What `resolve` of src/betmaxxing/ingestion/identity.py does for an event that is mapped or matched:
-- `_link` and `_refresh_mapped`.
use Prim.Native.String.{compare}
use Prim.Native.Nat.{Ordering}
use betmaxxing.Prelude.{
  ℕ, String, Bool, true, false, ◌&&◌, not, Option, none, some, List, [], ◌∷◌, ◌++◌, str_eq, ◌==◌,
  if◌then◌else◌,
}
use betmaxxing.Table.{scalar, update}
use betmaxxing.Identity.Rows.{
  ResolutionStatus, resolved, status_text, EventStatus, EventRow, EventSourceMapRow,
  EventScheduleHistoryRow, IdentityDb, ResolvedEvent, SourceKey, by_canonical_id,
}

-- the `IntegrityError` of a primary key that is taken
pub data IdentityError : Type 0 where
  id_taken : IdentityError

abbrev pub answer : ResolutionStatus → String → ResolvedEvent
answer status id = record {
  status = status;
  internal_id = some id;
  detail = "";
  candidate_internal_ids = [];
  rescheduled = false;
}

abbrev pub map_row : SourceKey → String → EventSourceMapRow
map_row k id = record {
  provider = k.provider;
  provider_event_id = k.provider_event_id;
  internal_id = id;
}

-- `source_ids[provider] = provider_event_id` on a dict
unfoldable pub set_source : String → String → List (String × String) → List (String × String)
set_source provider id [] = (provider, id) ∷ []
set_source provider id ((p, i) ∷ ids) =
    let rest = set_source provider id ids in
    if str_eq p provider then (provider, id) ∷ ids else (p, i) ∷ rest

abbrev pub with_source : SourceKey → EventRow → EventRow
with_source k r = record r { source_ids = set_source k.provider k.provider_event_id r.source_ids }

-- `_link`
unfoldable pub link : String → SourceKey → IdentityDb → IdentityDb
unfolding set_source
link id k db = record db {
  source_map = db.source_map ++ map_row k id ∷ [];
  events = update (by_canonical_id id) (with_source k) db.events;
}

abbrev pub moved : ℕ → String → EventRow → EventRow
moved start status r = record r { start_time_utc = start; status = status }

abbrev pub trail : EventRow → ℕ → String → ℕ → EventScheduleHistoryRow
trail r start status now = record {
  internal_id = r.canonical_id;
  start_time_utc = start;
  previous_start_time_utc = some r.start_time_utc;
  status = status;
  recorded_at = now;
}

abbrev pub refresh_row :
    Option EventRow → String → ℕ → String → ℕ → IdentityDb → ResolvedEvent × IdentityDb
refresh_row none id start status now db = (answer resolved id, db)
refresh_row (some r) id start status now db =
    let same = r.start_time_utc == start in
    if same && str_eq r.status status then (answer resolved id, db) else (
      record (answer resolved id) { rescheduled = not same },
      record db {
        history = db.history ++ trail r start status now ∷ [];
        events = update (by_canonical_id id) (moved start status) db.events;
      },
    )

-- `_refresh_mapped`
unfoldable pub refresh_mapped :
    String → ℕ → EventStatus → ℕ → IdentityDb → ResolvedEvent × IdentityDb
refresh_mapped id start status now db =
    refresh_row (scalar (by_canonical_id id) db.events) id start (status_text status) now db

abbrev pub text_leb : String → String → Bool
text_leb s t = elim (compare s t) [ Ordering.gt ↦ false | _ ↦ true ]
