-- ===== src/Identity/Answers.antt =====
-- What `resolve` answers, before and after any other calls.
use betmaxxing.Prelude.{
  ℕ, ◌≡◌, refl, ap, ◌∙◌, String, false, Option, none, some, List, [], ◌∷◌, arith, Bool-cases,
  Option-cases, inl, inr,
}
use betmaxxing.Table.{scalar}
use betmaxxing.Names.Defs.{Python}
use betmaxxing.Identity.Rows.{
  ResolutionStatus, resolved, IdentityDb, ProviderEvent, EventRow, SourceKey, source_key, of_source,
  by_canonical_id,
}
use betmaxxing.Identity.Match.{match_events}
use betmaxxing.Identity.Resolve.{
  resolve, decide, create_event, record_ambiguity, unusable, new_internal_id, without_error,
}
use betmaxxing.Identity.Mapped.{link, refresh_row, refresh_mapped}
use betmaxxing.Identity.Trace.{IdentityCall, identity_run, answered, lookup, id_of}
use betmaxxing.Identity.Stable.{run-lookup, lookup_bound}

refresh_row-answered :
    (o : Option EventRow) (id : String) (start : ℕ) (status : String) (now : ℕ) (db : IdentityDb)
    → answered (without_error (refresh_row o id start status now db)).0 ≡ some (resolved, id)
refresh_row-answered none id start status now db = refl
refresh_row-answered (some r) id start status now db = ground arith

refresh_row-lookup :
    (k : SourceKey) (o : Option EventRow) (id : String) (start : ℕ) (status : String) (now : ℕ)
    (db : IdentityDb)
    → lookup k (refresh_row o id start status now db).1.source_map ≡ lookup k db.source_map
refresh_row-lookup k none id start status now db = refl
refresh_row-lookup k (some r) id start status now db = ground arith

-- Whoever is given an id finds it in the table.
decide-lookup :
    (python : Python) (e : ProviderEvent) (fresh : String) (now : ℕ) (rows : List EventRow)
    (db : IdentityDb) {status : ResolutionStatus} {id : String}
    → scalar (of_source (source_key e)) db.source_map ≡ none
    → answered (decide python e fresh now rows db).0 ≡ some (status, id)
    → lookup (source_key e) (decide python e fresh now rows db).1.source_map ≡ some id
unfolding create_event link record_ambiguity
decide-lookup python e fresh now [] db {status} {id} free h =
    elim (Option-cases (scalar (by_canonical_id (new_internal_id fresh)) db.events)) [
      | inr (r, taken) ↦ absurd (ground (arith, h, taken))
      | inl new ↦
          let told : new_internal_id fresh ≡ id = ground (arith, h, new) in
          rw (new, create_event) (lookup_bound (source_key e) _ db.source_map free ∙ ap some told)
    ]
decide-lookup python e fresh now (r ∷ []) db {status} {id} free h =
    let told : r.canonical_id ≡ id = cc in
    lookup_bound (source_key e) r.canonical_id db.source_map free ∙ ap some told
decide-lookup python e fresh now (r ∷ s ∷ rows) db free h = cc

pub answered-lookup :
    (python : Python) (e : ProviderEvent) (fresh : String) (now : ℕ) (db : IdentityDb)
    {status : ResolutionStatus} {id : String}
    → answered (resolve python e fresh now db).0 ≡ some (status, id)
    → lookup (source_key e) (resolve python e fresh now db).1.source_map ≡ some id
unfolding resolve refresh_mapped
answered-lookup python e fresh now db {status} {id} h = elim (Bool-cases (unusable python e)) [
  | inl u ↦ absurd (ground (arith, h, u))
  | inr u ↦ elim (Option-cases (scalar (of_source (source_key e)) db.source_map)) [
    | inl free ↦
        rw (u, free, resolve)
          (decide-lookup python e fresh now (match_events python e db) db {status = status} free
            (ground (arith, h, u, free)))
    | inr (m, found) ↦
        let row = scalar (by_canonical_id m.internal_id) db.events in
        rw (u, found, resolve)
          (refresh_row-lookup (source_key e) row _ _ _ _ db
            ∙ ap id_of found
            ∙ ground (
              arith,
              h,
              u,
              found,
              refresh_row-answered row m.internal_id e.start_time_utc _ now db,
            ))
  ]
]

pub lookup-answered :
    (python : Python) (e : ProviderEvent) (fresh : String) (now : ℕ) (db : IdentityDb) {id : String}
    → unusable python e ≡ false
    → lookup (source_key e) db.source_map ≡ some id
    → answered (resolve python e fresh now db).0 ≡ some (resolved, id)
unfolding resolve refresh_mapped
lookup-answered python e fresh now db {id} u h =
    elim (Option-cases (scalar (of_source (source_key e)) db.source_map)) [
      | inl free ↦ absurd (ground (arith, h, free))
      | inr (m, found) ↦
          let same : m.internal_id ≡ id = ground (arith, h, found) in
          rw (u, found, resolve)
            (refresh_row-answered (scalar (by_canonical_id m.internal_id) db.events) m.internal_id
                e.start_time_utc _ now db
              ∙ ap (λ i. some (resolved, i)) same)
    ]

-- Identity survives everything: when `resolve` has answered an event of a provider with an id, then
-- after any further calls (resolutions, operator decisions, alias imports), the same provider's id is
-- answered RESOLVED with the same internal id, whatever its kick-off, names or status have become,
-- if its names are not blank.
pub identity_stable :
    (python : Python) (e later : ProviderEvent) (fresh fresh' : String) (now now' : ℕ)
    (db : IdentityDb) (calls : List IdentityCall) {status : ResolutionStatus} {id : String}
    → answered (resolve python e fresh now db).0 ≡ some (status, id)
    → source_key later ≡ source_key e
    → unusable python later ≡ false
    → answered
        (resolve python later fresh' now'
          (identity_run python (resolve python e fresh now db).1 calls)).0
      ≡ some (resolved, id)
identity_stable python e later fresh fresh' now now' db calls {status} {id} h same u =
    let reached = (resolve python e fresh now db).1 in
    let kept =
      run-lookup python (source_key e) {id = id} reached calls
        (answered-lookup python e fresh now db {status = status} h) in
    lookup-answered python later fresh' now' (identity_run python reached calls) u
      (ap (λ k. lookup k (identity_run python reached calls).source_map) same ∙ kept)
