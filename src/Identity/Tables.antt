-- ===== src/Identity/Tables.antt =====
-- What the calls of the identity service do to each of its tables, and the keys that survive.
use betmaxxing.Prelude.{
  ◌≤◌, ◌≡◌, ap, sym, subst, String, Bool, true, false, Option, none, some, List, [], ◌∷◌, ◌++◌,
  arith, eq_iff, str_eq, if◌then◌else◌,
}
use betmaxxing.Table.{
  scalar, update, Keyed, scalar-append, scalar-update, row_count-update, append-Keyed,
}
use betmaxxing.Identity.Rows.{EventRow, EventSourceMapRow, of_source, by_canonical_id}
use betmaxxing.Identity.Mapped.{map_row}
use betmaxxing.Identity.Registry.{MapStep, kept, bound}

pub MapStep-Keyed :
    (before after : List EventSourceMapRow)
    → MapStep before after
    → Keyed of_source before
    → Keyed of_source after
MapStep-Keyed before after (kept same) h = subst (Keyed of_source) (sym same) h
MapStep-Keyed before after (bound k id free grown) h = subst (Keyed of_source) (sym grown) (
    append-Keyed of_source (map_row k id) k before
      (λ l e.
        ground
          (arith, e, eq_iff k.provider l.provider, eq_iff k.provider_event_id l.provider_event_id))
      free h)

-- What one transaction does to the events.
pub data EventStep (before after : List EventRow) : Type 0 where
  no_event : after ≡ before → EventStep before after
  event_changed :
      (p : EventRow → Bool) (f : EventRow → EventRow)
      → ((r : EventRow) → (f r).canonical_id ≡ r.canonical_id)
      → after ≡ update p f before
      → EventStep before after
  event_added :
      (r : EventRow)
      → scalar (by_canonical_id r.canonical_id) before ≡ none
      → after ≡ before ++ r ∷ []
      → EventStep before after

pub EventStep-Keyed :
    (before after : List EventRow)
    → EventStep before after
    → Keyed by_canonical_id before
    → Keyed by_canonical_id after
EventStep-Keyed before after (no_event same) h = subst (Keyed by_canonical_id) (sym same) h
EventStep-Keyed before after (event_changed p f keeps same) h =
    subst (Keyed by_canonical_id) (sym same) (λ id.
      subst (λ n. n ≤ 1)
        (sym
          (row_count-update (by_canonical_id id) p f (λ r. ap (λ x. str_eq x id) (keeps r)) before))
        (h id))
EventStep-Keyed before after (event_added r fresh same) h =
    subst (Keyed by_canonical_id) (sym same) (
      append-Keyed by_canonical_id r r.canonical_id before
        (λ id e. ground (arith, e, eq_iff r.canonical_id id)) fresh h)

abbrev pub is_there : Option EventRow → Bool
is_there none = false
is_there (some r) = true

-- the event that an id names is stored
abbrev pub has_event : List EventRow → String → Bool
has_event events id = is_there (scalar (by_canonical_id id) events)

pub EventStep-has_event :
    (before after : List EventRow) (id : String)
    → EventStep before after
    → has_event before id ≡ true
    → has_event after id ≡ true
EventStep-has_event before after id (no_event same) h =
    subst (λ events. has_event events id ≡ true) (sym same) h
EventStep-has_event before after id (event_changed p f keeps same) h =
    subst (λ events. has_event events id ≡ true) (sym same)
      (rw (scalar-update (by_canonical_id id) p f (λ r. ap (λ x. str_eq x id) (keeps r)) before)
        (still (scalar (by_canonical_id id) before) h))
  where
    still :
        (o : Option EventRow)
        → is_there o ≡ true
        → is_there (elim o [ none ↦ none | some r ↦ some (if p r then f r else r) ]) ≡ true
    still none e = e
    still (some r) e = e
EventStep-has_event before after id (event_added r fresh same) h =
    subst (λ events. has_event events id ≡ true) (sym same)
      (rw (scalar-append (by_canonical_id id) before (r ∷ []))
        (still (scalar (by_canonical_id id) before) h))
  where
    still :
        (o : Option EventRow)
        → is_there o ≡ true
        → is_there (elim o [ none ↦ scalar (by_canonical_id id) (r ∷ []) | some s ↦ some s ]) ≡ true
    still none e = cc
    still (some s) e = e
