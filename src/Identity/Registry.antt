-- ===== src/Identity/Registry.antt =====
-- The mapping table as a registry that is written once for each pair.
use betmaxxing.Prelude.{
  ℕ, ◌≡◌, refl, String, true, false, Option, none, some, List, [], ◌∷◌, ◌++◌, arith, Bool-cases,
  Option-cases, inl, inr,
}
use betmaxxing.Table.{scalar}
use betmaxxing.Names.Defs.{Python, is_among}
use betmaxxing.Identity.Rows.{
  IdentityDb, ProviderEvent, EventRow, EventSourceMapRow, EventMappingReviewRow, SourceKey,
  source_key, of_source, by_canonical_id, review_of,
}
use betmaxxing.Identity.Match.{match_events}
use betmaxxing.Identity.Resolve.{
  resolve, decide, create_event, record_ambiguity, queue, unusable, new_internal_id,
}
use betmaxxing.Identity.Mapped.{map_row, link, refresh_row, refresh_mapped}
use betmaxxing.Identity.Review.{resolve_review, review_problem, by_review_id, review_key}
use betmaxxing.Identity.Trace.{IdentityCall, call_resolve, call_review, call_import, identity_after}

-- What one transaction does to the table.
pub data MapStep (before after : List EventSourceMapRow) : Type 0 where
  kept : after ≡ before → MapStep before after
  bound :
      (k : SourceKey) (id : String)
      → scalar (of_source k) before ≡ none
      → after ≡ before ++ map_row k id ∷ []
      → MapStep before after

pub refresh_row-source_map :
    (o : Option EventRow) (id : String) (start : ℕ) (status : String) (now : ℕ) (db : IdentityDb)
    → (refresh_row o id start status now db).1.source_map ≡ db.source_map
refresh_row-source_map none id start status now db = refl
refresh_row-source_map (some r) id start status now db = ground arith

pub queue-source_map :
    (o : Option EventMappingReviewRow) (e : ProviderEvent) (ids : List String) (detail : String)
    (now : ℕ) (db : IdentityDb)
    → (queue o e ids detail now db).source_map ≡ db.source_map
queue-source_map none e ids detail now db = refl
queue-source_map (some r) e ids detail now db = refl

create_event-MapStep :
    (python : Python) (e : ProviderEvent) (fresh : String) (now : ℕ) (db : IdentityDb)
    → scalar (of_source (source_key e)) db.source_map ≡ none
    → MapStep db.source_map (create_event python e fresh now db).1.source_map
unfolding create_event
create_event-MapStep python e fresh now db free =
    elim (Option-cases (scalar (by_canonical_id (new_internal_id fresh)) db.events)) [
      | inl new ↦ rw (new, create_event) (bound (source_key e) (new_internal_id fresh) free refl)
      | inr (r, taken) ↦ rw (taken, create_event) (kept refl)
    ]

decide-MapStep :
    (python : Python) (e : ProviderEvent) (fresh : String) (now : ℕ) (rows : List EventRow)
    (db : IdentityDb)
    → scalar (of_source (source_key e)) db.source_map ≡ none
    → MapStep db.source_map (decide python e fresh now rows db).1.source_map
unfolding link record_ambiguity
decide-MapStep python e fresh now [] db free = create_event-MapStep python e fresh now db free
decide-MapStep python e fresh now (r ∷ []) db free = bound (source_key e) r.canonical_id free refl
decide-MapStep python e fresh now (r ∷ s ∷ rows) db free =
    kept (queue-source_map (scalar (review_of (source_key e)) db.reviews) e _ _ now db)

pub resolve-MapStep :
    (python : Python) (e : ProviderEvent) (fresh : String) (now : ℕ) (db : IdentityDb)
    → MapStep db.source_map (resolve python e fresh now db).1.source_map
unfolding resolve refresh_mapped
resolve-MapStep python e fresh now db = elim (Bool-cases (unusable python e)) [
  | inl u ↦ rw (u, resolve) (kept refl)
  | inr u ↦ elim (Option-cases (scalar (of_source (source_key e)) db.source_map)) [
    | inl free ↦
        rw (u, free, resolve) (decide-MapStep python e fresh now (match_events python e db) db free)
    | inr (m, found) ↦
        rw (u, found, resolve)
          (kept
            (refresh_row-source_map (scalar (by_canonical_id m.internal_id) db.events) _ _ _ _ db))
  ]
]

-- What the validations of `resolve_review` leave.
pub record Accepted (id : String) (r : EventMappingReviewRow) (db : IdentityDb) : Type 0 where
  pub open_review : r.resolved ≡ false
  pub listed : is_among id r.candidate_internal_ids ≡ true
  pub event : EventRow
  pub stored : scalar (by_canonical_id id) db.events ≡ some event
  pub unclaimed : scalar (of_source (review_key r)) db.source_map ≡ none

pub review_problem-Accepted :
    (id : String) (r : EventMappingReviewRow) (db : IdentityDb)
    → review_problem id r db ≡ none
    → Accepted id r db
unfolding review_problem
review_problem-Accepted id r db h = elim (Option-cases (scalar (by_canonical_id id) db.events)) [
  | inl gone ↦ absurd (ground (arith, h, gone))
  | inr (event, e) ↦ elim (Option-cases (scalar (of_source (review_key r)) db.source_map)) [
    | inr (clash, c) ↦ absurd (ground (arith, h, e, c))
    | inl free ↦ record {
      open_review = ground (arith, h);
      listed = ground (arith, h);
      event = event;
      stored = e;
      unclaimed = free;
    }
  ]
]

pub resolve_review-MapStep :
    (review_id : ℕ) (id operator : String) (moment : ℕ) (db : IdentityDb)
    → MapStep db.source_map (resolve_review review_id id operator moment db).1.source_map
unfolding resolve_review link
resolve_review-MapStep review_id id operator moment db =
    elim (Option-cases (scalar (by_review_id review_id) db.reviews)) [
      | inl missing ↦ rw (missing, resolve_review) (kept refl)
      | inr (r, e) ↦ elim (Option-cases (review_problem id r db)) [
        | inr (p, bad) ↦ rw (e, bad, resolve_review) (kept refl)
        | inl good ↦
            rw (e, good, resolve_review)
              (bound (review_key r) id (review_problem-Accepted id r db good).unclaimed refl)
      ]
    ]

-- The mapping table implements a registry that is written once for each pair: one transaction of
-- any kind either leaves the table as it is, or adds one row, for a pair that had none.
pub identity_after-MapStep :
    (python : Python) (db : IdentityDb) (c : IdentityCall)
    → MapStep db.source_map (identity_after python db c).source_map
unfolding identity_after
identity_after-MapStep python db (call_resolve e fresh now) = resolve-MapStep python e fresh now db
identity_after-MapStep python db (call_review review_id id operator moment) =
    resolve_review-MapStep review_id id operator moment db
identity_after-MapStep python db (call_import rows) = kept refl
