-- ===== src/Identity/OneEach.antt =====
-- Two ids of one provider are two fixtures: resolution alone never gives them one event.
use betmaxxing.Prelude.{
  ℕ, ◌≡◌, refl, sym, subst, String, Bool, true, false, ◌&&◌, not, none, List, [], ◌∷◌, arith,
  Bool-cases, Option-cases, inl, inr, eq_iff, str_eq, All,
}
use betmaxxing.Table.{scalar, select, row_count, Keyed, append-Keyed, All-select, select_sound}
use betmaxxing.Names.Defs.{Python, is_among}
use betmaxxing.Identity.Rows.{
  IdentityDb, empty_identity, ProviderEvent, EventRow, EventSourceMapRow, source_key, of_source,
  by_canonical_id, review_of, SourceKey,
}
use betmaxxing.Identity.Match.{match_events, already_mapped}
use betmaxxing.Identity.Resolve.{
  resolve, decide, create_event, record_ambiguity, unusable, new_internal_id,
}
use betmaxxing.Identity.Mapped.{map_row, link, refresh_mapped}
use betmaxxing.Identity.Trace.{
  IdentityCall, call_resolve, call_review, call_import, identity_after, identity_run,
}
use betmaxxing.Identity.Tables.{has_event}
use betmaxxing.Identity.Steps.{Backed}
use betmaxxing.Identity.Registry.{refresh_row-source_map, queue-source_map}
use betmaxxing.Identity.Invariant.{IdentityInv, identity_after-IdentityInv, empty-IdentityInv}

pub record Slot : Type 0 where
  pub provider : String
  pub internal_id : String

abbrev pub of_slot : Slot → EventSourceMapRow → Bool
of_slot s r = str_eq r.provider s.provider && str_eq r.internal_id s.internal_id

unmapped_slot :
    (provider id : String) (rows : List EventSourceMapRow)
    → is_among id (already_mapped provider rows) ≡ false
    → scalar (of_slot record { provider = provider; internal_id = id }) rows ≡ none
unfolding scalar already_mapped select
unmapped_slot provider id [] h = refl
unmapped_slot provider id (r ∷ rows) h = ground (arith, unmapped_slot provider id rows)

fresh_slot :
    (provider id : String) (events : List EventRow) (rows : List EventSourceMapRow)
    → scalar (by_canonical_id id) events ≡ none
    → Backed events rows
    → scalar (of_slot record { provider = provider; internal_id = id }) rows ≡ none
unfolding scalar
fresh_slot provider id events [] fresh h = refl
fresh_slot provider id events (r ∷ rows) fresh h = elim (Bool-cases (str_eq r.internal_id id)) [
  | inr other ↦ ground (arith, other, fresh_slot provider id events rows fresh h.1)
  | inl same ↦
      let alike : r.internal_id ≡ id = ground (arith, same, eq_iff r.internal_id id) in
      let there : has_event events id ≡ true = subst (λ i. has_event events i ≡ true) alike h.0 in
      absurd (ground (arith, there, fresh))
]

only_slot :
    (k : SourceKey) (id : String) (s : Slot)
    → of_slot s (map_row k id) ≡ true
    → s ≡ record { provider = k.provider; internal_id = id }
only_slot k id s h = ground (arith, h, eq_iff k.provider s.provider, eq_iff id s.internal_id)

match_events-unmapped :
    (python : Python) (e : ProviderEvent) (db : IdentityDb)
    → All
        (λ r. not (is_among r.canonical_id (already_mapped e.provider db.source_map)) ≡ true)
        (match_events python e db)
unfolding match_events
match_events-unmapped python e db = All-select _ _ _ (select_sound _ _)

create_event-Slots :
    (python : Python) (e : ProviderEvent) (fresh : String) (now : ℕ) (db : IdentityDb)
    → IdentityInv db
    → Keyed of_slot db.source_map
    → Keyed of_slot (create_event python e fresh now db).1.source_map
unfolding create_event
create_event-Slots python e fresh now db inv h =
    let id = new_internal_id fresh in
    elim (Option-cases (scalar (by_canonical_id id) db.events)) [
      | inr (r, taken) ↦ rw (taken, create_event) h
      | inl new ↦
          rw (new, create_event)
            (append-Keyed of_slot (map_row (source_key e) id) _ db.source_map
              (only_slot (source_key e) id)
              (fresh_slot e.provider id db.events db.source_map new inv.mapped_stored) h)
    ]

decide-Slots :
    (python : Python) (e : ProviderEvent) (fresh : String) (now : ℕ) (rows : List EventRow)
    (db : IdentityDb)
    → All (λ r. not (is_among r.canonical_id (already_mapped e.provider db.source_map)) ≡ true) rows
    → IdentityInv db
    → Keyed of_slot db.source_map
    → Keyed of_slot (decide python e fresh now rows db).1.source_map
unfolding link record_ambiguity
decide-Slots python e fresh now [] db free inv h = create_event-Slots python e fresh now db inv h
decide-Slots python e fresh now (r ∷ []) db free inv h =
    append-Keyed of_slot (map_row (source_key e) r.canonical_id) _ db.source_map
      (only_slot (source_key e) r.canonical_id)
      (unmapped_slot e.provider r.canonical_id db.source_map (let x = free.0 in ground arith)) h
decide-Slots python e fresh now (r ∷ s ∷ rows) db free inv h =
    subst (Keyed of_slot)
      (sym (queue-source_map (scalar (review_of (source_key e)) db.reviews) e _ _ now db)) h

resolve-Slots :
    (python : Python) (e : ProviderEvent) (fresh : String) (now : ℕ) (db : IdentityDb)
    → IdentityInv db
    → Keyed of_slot db.source_map
    → Keyed of_slot (resolve python e fresh now db).1.source_map
unfolding resolve refresh_mapped
resolve-Slots python e fresh now db inv h = elim (Bool-cases (unusable python e)) [
  | inl u ↦ rw (u, resolve) h
  | inr u ↦ elim (Option-cases (scalar (of_source (source_key e)) db.source_map)) [
    | inl free ↦
        rw (u, free, resolve)
          (decide-Slots python e fresh now (match_events python e db) db
            (match_events-unmapped python e db) inv h)
    | inr (m, found) ↦
        rw (u, found, resolve)
          (subst (Keyed of_slot)
            (sym (
              refresh_row-source_map (scalar (by_canonical_id m.internal_id) db.events) _ _ _ _ db))
            h)
  ]
]

-- no operator's decision
abbrev pub is_automatic : IdentityCall → Bool
is_automatic (call_review review_id id operator moment) = false
is_automatic _ = true

run-Slots :
    (python : Python) (db : IdentityDb) (calls : List IdentityCall)
    → All (λ c. is_automatic c ≡ true) calls
    → IdentityInv db
    → Keyed of_slot db.source_map
    → Keyed of_slot (identity_run python db calls).source_map
unfolding identity_run identity_after
run-Slots python db [] auto inv h = h
run-Slots python db (call_resolve e fresh now ∷ calls) auto inv h =
    run-Slots python (resolve python e fresh now db).1 calls auto.1
      (identity_after-IdentityInv python db (call_resolve e fresh now) inv)
      (resolve-Slots python e fresh now db inv h)
run-Slots python db (call_import rows ∷ calls) auto inv h =
    run-Slots python (identity_after python db (call_import rows)) calls auto.1
      (identity_after-IdentityInv python db (call_import rows) inv) h
run-Slots python db (call_review review_id id operator moment ∷ calls) auto inv h =
    let bad = auto.0 in cc

-- A provider is authoritative about its own catalogue: from empty tables, under any sequence of
-- resolutions and alias imports, without an operator's decision, no two ids of one provider are
-- mapped to the same event.
pub one_event_each :
    (python : Python) (calls : List IdentityCall)
    → All (λ c. is_automatic c ≡ true) calls
    → Keyed of_slot (identity_run python empty_identity calls).source_map
one_event_each python calls auto =
    run-Slots python empty_identity calls auto empty-IdentityInv empty_slots
  where
    empty_slots : Keyed of_slot empty_identity.source_map
    empty_slots = λ s. unfold row_count in omega arith
