-- ===== src/Identity/Ambiguity.antt =====
-- An ambiguity of `resolve` is queued, and nothing else is written.
use betmaxxing.Prelude.{
  ℕ, ◌≡◌, refl, ap, ◌∙◌, subst, String, Bool, true, false, Option, none, some, List, [], ◌∷◌, arith,
  Bool-cases, Option-cases, inl, inr, eq_iff, str_eq_refl, Result, ok, err,
}
use betmaxxing.Table.{scalar, scalar-append, scalar-update, scalar_sound, All-scalar}
use betmaxxing.Names.Defs.{Python}
use betmaxxing.Identity.Rows.{
  ambiguous, IdentityDb, ProviderEvent, EventRow, EventMappingReviewRow, ResolvedEvent, SourceKey,
  source_key, of_source, by_canonical_id, review_of,
}
use betmaxxing.Identity.Match.{match_events}
use betmaxxing.Identity.Resolve.{
  resolve, decide, create_event, record_ambiguity, queue, unusable, new_internal_id, new_review,
  requeued, without_error,
}
use betmaxxing.Identity.Mapped.{link, refresh_row, refresh_mapped, IdentityError}
use betmaxxing.Identity.Review.{review_key}
use betmaxxing.Identity.Trace.{lookup, id_of}
use betmaxxing.Identity.Queue.{Decided, QueueInv}

-- the ids that a result leaves to an operator
abbrev pub left_open : Result IdentityError ResolvedEvent → Option (List String)
left_open (err e) = none
left_open (ok r) = elim r.status [ ambiguous ↦ some r.candidate_internal_ids | _ ↦ none ]

-- whether the review of a pair is closed, and its candidates
abbrev pub review_view : Option EventMappingReviewRow → Option (Bool × List String)
review_view none = none
review_view (some r) = some (r.resolved, r.candidate_internal_ids)

abbrev pub queued_for : SourceKey → IdentityDb → Option (Bool × List String)
queued_for k db = review_view (scalar (review_of k) db.reviews)

-- What an ambiguity leaves: the tables that price anything are as they were, and the pair has an open
-- review with the candidates.
pub record OnlyQueued (k : SourceKey) (ids : List String) (before after : IdentityDb) : Type 0 where
  pub same_events : after.events ≡ before.events
  pub same_map : after.source_map ≡ before.source_map
  pub same_history : after.history ≡ before.history
  pub same_aliases : after.aliases ≡ before.aliases
  pub queued : queued_for k after ≡ some (false, ids)

own_review :
    (id : ℕ) (e : ProviderEvent) (ids : List String) (detail : String) (now : ℕ)
    → review_of (source_key e) (new_review id e ids detail now) ≡ true
own_review id e ids detail now =
    ground (arith, str_eq_refl e.provider, str_eq_refl e.provider_event_id)

queue-OnlyQueued :
    (o : Option EventMappingReviewRow) (e : ProviderEvent) (ids : List String) (detail : String)
    (now : ℕ) (db : IdentityDb)
    → scalar (review_of (source_key e)) db.reviews ≡ o
    → ((r : EventMappingReviewRow) → o ≡ some r → r.resolved ≡ false)
    → OnlyQueued (source_key e) ids db (queue o e ids detail now db)
queue-OnlyQueued none e ids detail now db free _ = record {
  same_events = refl;
  same_map = refl;
  same_history = refl;
  same_aliases = refl;
  queued =
      rw
        (
          scalar-append (review_of (source_key e)) db.reviews
              (new_review db.next_review_id e ids detail now ∷ []),
          free,
        )
        (unfold scalar in rw (own_review db.next_review_id e ids detail now) refl);
}
queue-OnlyQueued (some r) e ids detail now db found still_open = record {
  same_events = refl;
  same_map = refl;
  same_history = refl;
  same_aliases = refl;
  queued =
      rw
        (
          scalar-update (review_of (source_key e)) (review_of (source_key e))
              (requeued ids detail now) (λ x. refl) db.reviews,
          found,
          scalar_sound (review_of (source_key e)) db.reviews {r = r} found,
        )
        (ap (λ b. some (b, ids)) (still_open r refl));
}

-- The review of a pair that is not mapped is open.
unmapped_open :
    (k : SourceKey) (db : IdentityDb) (r : EventMappingReviewRow)
    → QueueInv db.source_map db.next_review_id db.reviews
    → scalar (of_source k) db.source_map ≡ none
    → scalar (review_of k) db.reviews ≡ some r
    → r.resolved ≡ false
unmapped_open k db r inv free found =
    elim (All-scalar (Decided db.source_map) (review_of k) db.reviews {r = r} inv.decided found) [
      | inl still_open ↦ still_open
      | inr (id, chosen, mapped) ↦
          let hit = scalar_sound (review_of k) db.reviews {r = r} found in
          let same : review_key r ≡ k = ground (
            arith,
            hit,
            eq_iff r.provider k.provider,
            eq_iff r.provider_event_id k.provider_event_id,
          ) in
          let nothing : lookup (review_key r) db.source_map ≡ none =
            ap (λ x. lookup x db.source_map) same ∙ ap id_of free in
          absurd (ground (arith, mapped, nothing))
    ]

refresh_row-left_open :
    (o : Option EventRow) (id : String) (start : ℕ) (status : String) (now : ℕ) (db : IdentityDb)
    → left_open (without_error (refresh_row o id start status now db)).0 ≡ none
refresh_row-left_open none id start status now db = refl
refresh_row-left_open (some r) id start status now db = ground arith

decide-OnlyQueued :
    (python : Python) (e : ProviderEvent) (fresh : String) (now : ℕ) (rows : List EventRow)
    (db : IdentityDb) (ids : List String)
    → QueueInv db.source_map db.next_review_id db.reviews
    → scalar (of_source (source_key e)) db.source_map ≡ none
    → left_open (decide python e fresh now rows db).0 ≡ some ids
    → OnlyQueued (source_key e) ids db (decide python e fresh now rows db).1
unfolding create_event link record_ambiguity
decide-OnlyQueued python e fresh now [] db ids inv free h =
    elim (Option-cases (scalar (by_canonical_id (new_internal_id fresh)) db.events)) [
      | inr (r, taken) ↦ absurd (ground (arith, h, taken))
      | inl new ↦ absurd (ground (arith, h, new))
    ]
decide-OnlyQueued python e fresh now (r ∷ []) db ids inv free h = cc
decide-OnlyQueued python e fresh now (r ∷ s ∷ rows) db ids inv free h =
    let result = record_ambiguity python e (r ∷ s ∷ rows) now db in
    let told : result.0.candidate_internal_ids ≡ ids = cc in
    subst (λ x. OnlyQueued (source_key e) x db result.1) told
      (queue-OnlyQueued (scalar (review_of (source_key e)) db.reviews) e _ _ now db refl
        (λ x found. unmapped_open (source_key e) db x inv free found))

-- Ambiguity resolves to nothing: from tables whose review queue is consistent, when `resolve` leaves a
-- choice between stored events open, then events, mappings, history and aliases are unchanged, and the
-- pair has an open review that lists exactly the candidates of the answer.
pub ambiguity-OnlyQueued :
    (python : Python) (e : ProviderEvent) (fresh : String) (now : ℕ) (db : IdentityDb)
    (ids : List String)
    → QueueInv db.source_map db.next_review_id db.reviews
    → left_open (resolve python e fresh now db).0 ≡ some ids
    → OnlyQueued (source_key e) ids db (resolve python e fresh now db).1
unfolding resolve refresh_mapped
ambiguity-OnlyQueued python e fresh now db ids inv h = elim (Bool-cases (unusable python e)) [
  | inl u ↦ absurd (ground (arith, h, u))
  | inr u ↦ elim (Option-cases (scalar (of_source (source_key e)) db.source_map)) [
    | inl free ↦
        rw (u, free, resolve)
          (decide-OnlyQueued python e fresh now (match_events python e db) db ids inv free
            (ground (arith, h, u, free)))
    | inr (m, found) ↦ absurd (
        ground (
          arith,
          h,
          u,
          found,
          refresh_row-left_open (scalar (by_canonical_id m.internal_id) db.events) m.internal_id
              e.start_time_utc _ now db,
        ))
  ]
]
