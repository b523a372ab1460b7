-- ===== src/Identity/Steps.antt =====
-- Each operation of the identity service as one step on its tables.
use betmaxxing.Prelude.{
  ℕ, ◌≡◌, refl, String, true, Option, none, some, List, [], ◌∷◌, ◌++◌, arith, Bool-cases,
  Option-cases, inl, inr, str_eq_refl, All, All-append, str_eq, ◌==◌, ◌&&◌,
}
use betmaxxing.Table.{scalar, All-select, All-map, scalar-append}
use betmaxxing.Names.Defs.{Python}
use betmaxxing.Identity.Rows.{
  IdentityDb, ProviderEvent, EventRow, EventSourceMapRow, EventMappingReviewRow, SourceKey,
  source_key, of_source, by_canonical_id, review_of,
}
use betmaxxing.Identity.Match.{match_events}
use betmaxxing.Identity.Resolve.{
  resolve, decide, create_event, record_ambiguity, queue, unusable, new_internal_id, new_event,
}
use betmaxxing.Identity.Mapped.{map_row, link, refresh_row, refresh_mapped, moved}
use betmaxxing.Identity.Review.{resolve_review, review_problem, by_review_id, review_key}
use betmaxxing.Identity.Registry.{review_problem-Accepted}
use betmaxxing.Identity.Stable.{lookup_bound}
use betmaxxing.Identity.Tables.{
  EventStep, no_event, event_changed, event_added, has_event, EventStep-has_event,
}
use betmaxxing.Identity.Queue.{ReviewStep, no_review, review_changed, review_queued, review_decided}

-- every mapping names a stored event
abbrev pub Backed : List EventRow → List EventSourceMapRow → Type 0
Backed events source_map = All (λ m. has_event events m.internal_id ≡ true) source_map

-- One transaction on the events, the reviews and the mappings' events.
pub record DbStep (before after : IdentityDb) : Type 0 where
  pub event_step : EventStep before.events after.events
  pub review_step :
      ReviewStep after.source_map before.next_review_id before.reviews after.next_review_id
        after.reviews
  pub backed : Backed after.events before.source_map → Backed after.events after.source_map
  pub same_aliases : after.aliases ≡ before.aliases

pub unchanged-DbStep : (db : IdentityDb) → DbStep db db
unchanged-DbStep db = record {
  event_step = no_event refl;
  review_step = no_review;
  backed = λ h. h;
  same_aliases = refl;
}

refresh_row-DbStep :
    (o : Option EventRow) (id : String) (start : ℕ) (status : String) (now : ℕ) (db : IdentityDb)
    → DbStep db (refresh_row o id start status now db).1
refresh_row-DbStep none id start status now db = unchanged-DbStep db
refresh_row-DbStep (some r) id start status now db =
    elim (Bool-cases (r.start_time_utc == start && str_eq r.status status)) [
      | inl same ↦ rw same (unchanged-DbStep db)
      | inr differs ↦ rw differs record {
        event_step = event_changed (by_canonical_id id) (moved start status) (λ x. refl) refl;
        review_step = no_review;
        backed = λ h. h;
        same_aliases = refl;
      }
    ]

link-EventStep :
    (id : String) (k : SourceKey) (db : IdentityDb) → EventStep db.events (link id k db).events
unfolding link
link-EventStep id k db = event_changed (by_canonical_id id) _ (λ r. refl) refl

link-Backed :
    (id : String) (k : SourceKey) (db : IdentityDb)
    → has_event db.events id ≡ true
    → Backed (link id k db).events db.source_map
    → Backed (link id k db).events (link id k db).source_map
unfolding link
link-Backed id k db there h =
    All-append _ db.source_map (map_row k id ∷ []) h
      (EventStep-has_event db.events (link id k db).events id (link-EventStep id k db) there, tt)

-- A stored event is found by its id.
stored-has_event :
    (events : List EventRow) → All (λ r. has_event events r.canonical_id ≡ true) events
unfolding scalar
stored-has_event [] = tt
stored-has_event (r ∷ events) = (
  rw (str_eq_refl r.canonical_id) refl,
  All-map _ _ events (λ s h. ground (arith, h)) (stored-has_event events),
)

match_events-has_event :
    (python : Python) (e : ProviderEvent) (db : IdentityDb)
    → All (λ r. has_event db.events r.canonical_id ≡ true) (match_events python e db)
unfolding match_events
match_events-has_event python e db =
    All-select _ _ _ (All-select _ _ _ (All-select _ _ db.events (stored-has_event db.events)))

queue-DbStep :
    (o : Option EventMappingReviewRow) (e : ProviderEvent) (ids : List String) (detail : String)
    (now : ℕ) (db : IdentityDb)
    → scalar (review_of (source_key e)) db.reviews ≡ o
    → DbStep db (queue o e ids detail now db)
queue-DbStep none e ids detail now db free = record {
  event_step = no_event refl;
  review_step = review_queued _ refl refl free;
  backed = λ h. h;
  same_aliases = refl;
}
queue-DbStep (some r) e ids detail now db found = record {
  event_step = no_event refl;
  review_step = review_changed (review_of (source_key e)) _ record {
    same_id = λ x. refl;
    same_source = λ x. refl;
    same_answer = λ x. refl;
    same_choice = λ x. refl;
  };
  backed = λ h. h;
  same_aliases = refl;
}

create_event-DbStep :
    (python : Python) (e : ProviderEvent) (fresh : String) (now : ℕ) (db : IdentityDb)
    → DbStep db (create_event python e fresh now db).1
unfolding create_event
create_event-DbStep python e fresh now db =
    let id = new_internal_id fresh in
    elim (Option-cases (scalar (by_canonical_id id) db.events)) [
      | inr (r, taken) ↦ rw (taken, create_event) (unchanged-DbStep db)
      | inl new ↦
          rw (new, create_event)
            record {
              event_step = event_added (new_event python id e) new refl;
              review_step = no_review;
              backed = λ h.
                  All-append _ db.source_map (map_row (source_key e) id ∷ []) h (found id new, tt);
              same_aliases = refl;
            }
    ]
  where
    found :
        (id : String)
        → scalar (by_canonical_id id) db.events ≡ none
        → has_event (db.events ++ new_event python id e ∷ []) id ≡ true
    found id new =
        rw (scalar-append (by_canonical_id id) db.events (new_event python id e ∷ []), new)
          (unfold scalar in rw (str_eq_refl id) refl)

decide-DbStep :
    (python : Python) (e : ProviderEvent) (fresh : String) (now : ℕ) (rows : List EventRow)
    (db : IdentityDb)
    → All (λ r. has_event db.events r.canonical_id ≡ true) rows
    → DbStep db (decide python e fresh now rows db).1
unfolding record_ambiguity link
decide-DbStep python e fresh now [] db h = create_event-DbStep python e fresh now db
decide-DbStep python e fresh now (r ∷ []) db h = record {
  event_step = link-EventStep r.canonical_id (source_key e) db;
  review_step = no_review;
  backed = link-Backed r.canonical_id (source_key e) db h.0;
  same_aliases = refl;
}
decide-DbStep python e fresh now (r ∷ s ∷ rows) db h =
    queue-DbStep (scalar (review_of (source_key e)) db.reviews) e _ _ now db refl

pub resolve-DbStep :
    (python : Python) (e : ProviderEvent) (fresh : String) (now : ℕ) (db : IdentityDb)
    → DbStep db (resolve python e fresh now db).1
unfolding resolve refresh_mapped
resolve-DbStep python e fresh now db = elim (Bool-cases (unusable python e)) [
  | inl u ↦ rw (u, resolve) (unchanged-DbStep db)
  | inr u ↦ elim (Option-cases (scalar (of_source (source_key e)) db.source_map)) [
    | inl free ↦
        rw (u, free, resolve)
          (decide-DbStep python e fresh now (match_events python e db) db
            (match_events-has_event python e db))
    | inr (m, found) ↦
        rw (u, found, resolve)
          (refresh_row-DbStep (scalar (by_canonical_id m.internal_id) db.events) _ _ _ _ db)
  ]
]

pub resolve_review-DbStep :
    (review_id : ℕ) (id operator : String) (moment : ℕ) (db : IdentityDb)
    → DbStep db (resolve_review review_id id operator moment db).1
unfolding resolve_review link
resolve_review-DbStep review_id id operator moment db =
    elim (Option-cases (scalar (by_review_id review_id) db.reviews)) [
      | inl missing ↦ rw (missing, resolve_review) (unchanged-DbStep db)
      | inr (r, e) ↦ elim (Option-cases (review_problem id r db)) [
        | inr (p, bad) ↦ rw (e, bad, resolve_review) (unchanged-DbStep db)
        | inl good ↦
            let fine = review_problem-Accepted id r db good in
            rw (e, good, resolve_review)
              record {
                event_step = link-EventStep id (review_key r) db;
                review_step =
                    review_decided review_id r id operator moment e
                      (lookup_bound (review_key r) id db.source_map fine.unclaimed);
                backed = link-Backed id (review_key r) db (rw fine.stored refl);
                same_aliases = refl;
              }
      ]
    ]
