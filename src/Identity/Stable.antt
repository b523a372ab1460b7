-- ===== src/Identity/Stable.antt =====
-- Identity is stable: an answer once given for a provider's event is given for ever.
use betmaxxing.Prelude.{
  ◌≡◌, refl, ap, ◌∙◌, String, Bool, true, false, ◌&&◌, Option, none, some, List, [], ◌∷◌, ◌++◌,
  subst, if◌then◌else◌, arith, Bool-cases, inl, inr, eq_iff, str_eq, str_eq_refl,
}
use betmaxxing.Table.{scalar, scalar-append}
use betmaxxing.Names.Defs.{Python}
use betmaxxing.Identity.Rows.{IdentityDb, EventSourceMapRow, SourceKey, of_source}
use betmaxxing.Identity.Mapped.{map_row}
use betmaxxing.Identity.Trace.{IdentityCall, identity_after, identity_run, lookup, id_of}
use betmaxxing.Identity.Registry.{MapStep, kept, bound, identity_after-MapStep}

own_key : (k : SourceKey) (id : String) → of_source k (map_row k id) ≡ true
own_key k id = ground (arith, str_eq_refl k.provider, str_eq_refl k.provider_event_id)

abbrev pub same_source : SourceKey → SourceKey → Bool
same_source k l = str_eq k.provider l.provider && str_eq k.provider_event_id l.provider_event_id

lookup-append :
    (k : SourceKey) (r : EventSourceMapRow) (rows : List EventSourceMapRow)
    → lookup k (rows ++ r ∷ [])
      ≡ elim (scalar (of_source k) rows) [ none ↦ lookup k (r ∷ []) | some s ↦ some s.internal_id ]
lookup-append k r rows =
    rw (scalar-append (of_source k) rows (r ∷ [])) (found (scalar (of_source k) rows))
  where
    found :
        (o : Option EventSourceMapRow)
        → id_of (elim o [ none ↦ scalar (of_source k) (r ∷ []) | some s ↦ some s ])
          ≡ elim o [ none ↦ lookup k (r ∷ []) | some s ↦ some s.internal_id ]
    found none = refl
    found (some s) = refl

pub lookup_bound :
    (k : SourceKey) (id : String) (rows : List EventSourceMapRow)
    → scalar (of_source k) rows ≡ none
    → lookup k (rows ++ map_row k id ∷ []) ≡ some id
lookup_bound k id rows free =
    lookup-append k (map_row k id) rows ∙ rw free (unfold scalar in rw (own_key k id) refl)

-- The row of one pair, seen from another.
lookup_other :
    (k l : SourceKey) (id : String) (rows : List EventSourceMapRow)
    → scalar (of_source k) rows ≡ none
    → lookup l (rows ++ map_row k id ∷ []) ≡ (if same_source k l then some id else lookup l rows)
unfolding scalar
lookup_other k l id rows free =
    lookup-append l (map_row k id) rows ∙ elim (Bool-cases (same_source k l)) [
      | inr apart ↦ last (scalar (of_source l) rows) apart ∙ rw apart refl
      | inl same ↦
          let alike : k ≡ l = ground (
            arith,
            same,
            eq_iff k.provider l.provider,
            eq_iff k.provider_event_id l.provider_event_id,
          ) in
          let none_yet : scalar (of_source l) rows ≡ none =
            subst (λ x. scalar (of_source x) rows ≡ none) alike free in
          rw (none_yet, same) refl
    ]
  where
    last :
        (o : Option EventSourceMapRow)
        → same_source k l ≡ false
        → elim o [ none ↦ lookup l (map_row k id ∷ []) | some s ↦ some s.internal_id ] ≡ id_of o
    last none apart = rw apart refl
    last (some s) apart = refl

-- The abstract registry: what one transaction does to the function from pairs to ids.
pub data Assigns (before after : SourceKey → Option String) : Type 0 where
  assigns_none : ((l : SourceKey) → after l ≡ before l) → Assigns before after
  assigns :
      (k : SourceKey) (id : String)
      → before k ≡ none
      → ((l : SourceKey) → after l ≡ (if same_source k l then some id else before l))
      → Assigns before after

MapStep-Assigns :
    (before after : List EventSourceMapRow)
    → MapStep before after
    → Assigns (λ k. lookup k before) (λ k. lookup k after)
MapStep-Assigns before after (kept same) = assigns_none (λ k. ap (lookup k) same)
MapStep-Assigns before after (bound k id free grown) =
    assigns k id (ap id_of free) (λ l. ap (lookup l) grown ∙ lookup_other k l id before free)

-- The mapping table implements a registry that is written once for each pair: one call of any kind
-- either leaves the id of every pair as it is, or gives an id to one pair that had none and leaves
-- every other pair's as it is.
pub identity_after-Assigns :
    (python : Python) (db : IdentityDb) (c : IdentityCall)
    → Assigns (λ k. lookup k db.source_map) (λ k. lookup k (identity_after python db c).source_map)
identity_after-Assigns python db c =
    MapStep-Assigns db.source_map _ (identity_after-MapStep python db c)

-- What was assigned stays.
pub MapStep-lookup :
    (k : SourceKey) {id : String} (before after : List EventSourceMapRow)
    → MapStep before after
    → lookup k before ≡ some id
    → lookup k after ≡ some id
MapStep-lookup k before after (kept same) h = ap (lookup k) same ∙ h
MapStep-lookup k {id} before after (bound l id' free grown) h =
    ap (lookup k) grown
    ∙ lookup-append k (map_row l id') before
    ∙ first (scalar (of_source k) before) h
  where
    first :
        (o : Option EventSourceMapRow)
        → id_of o ≡ some id
        → elim o [ none ↦ lookup k (map_row l id' ∷ []) | some s ↦ some s.internal_id ] ≡ some id
    first none e = cc
    first (some s) e = e

pub run-lookup :
    (python : Python) (k : SourceKey) {id : String} (db : IdentityDb) (calls : List IdentityCall)
    → lookup k db.source_map ≡ some id
    → lookup k (identity_run python db calls).source_map ≡ some id
unfolding identity_run
run-lookup python k db [] h = h
run-lookup python k db (c ∷ calls) h =
    run-lookup python k (identity_after python db c) calls
      (MapStep-lookup k db.source_map _ (identity_after-MapStep python db c) h)
