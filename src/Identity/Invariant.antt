-- ===== src/Identity/Invariant.antt =====
-- The invariant of the identity tables, under any calls.
use betmaxxing.Prelude.{sym, subst, List, [], ◌∷◌, arith}
use betmaxxing.Table.{row_count, Keyed, All-map}
use betmaxxing.Names.Defs.{Python}
use betmaxxing.Identity.Rows.{IdentityDb, empty_identity, of_source, by_canonical_id}
use betmaxxing.Identity.Alias.{of_alias}
use betmaxxing.Identity.AliasLaws.{import_aliases-Keyed}
use betmaxxing.Identity.Trace.{
  IdentityCall, call_resolve, call_review, call_import, identity_after, identity_run,
}
use betmaxxing.Identity.Registry.{MapStep, resolve-MapStep, resolve_review-MapStep}
use betmaxxing.Identity.Tables.{MapStep-Keyed, EventStep-Keyed, EventStep-has_event}
use betmaxxing.Identity.Queue.{QueueInv, MapStep-QueueInv, ReviewStep-QueueInv}
use betmaxxing.Identity.Steps.{DbStep, Backed, resolve-DbStep, resolve_review-DbStep}

-- One event for each id, one mapping for each provider's id and a stored event behind it, one alias
-- for each key; one review for each pair and for each number, and each is open or names the event
-- that its pair is mapped to.
pub record IdentityInv (db : IdentityDb) : Type 0 where
  pub event_ids : Keyed by_canonical_id db.events
  pub mapped_once : Keyed of_source db.source_map
  pub mapped_stored : Backed db.events db.source_map
  pub alias_once : Keyed of_alias db.aliases
  pub queue_inv : QueueInv db.source_map db.next_review_id db.reviews

step-IdentityInv :
    (before after : IdentityDb)
    → MapStep before.source_map after.source_map
    → DbStep before after
    → IdentityInv before
    → IdentityInv after
step-IdentityInv before after mapping step h = record {
  event_ids = EventStep-Keyed before.events after.events step.event_step h.event_ids;
  mapped_once = MapStep-Keyed before.source_map after.source_map mapping h.mapped_once;
  mapped_stored = step.backed (
      All-map _ _ before.source_map
        (λ m there.
          EventStep-has_event before.events after.events m.internal_id step.event_step there)
        h.mapped_stored);
  alias_once = subst (Keyed of_alias) (sym step.same_aliases) h.alias_once;
  queue_inv =
      ReviewStep-QueueInv after.source_map before.next_review_id after.next_review_id before.reviews
        after.reviews step.review_step
        (MapStep-QueueInv before.source_map after.source_map before.next_review_id before.reviews
          mapping h.queue_inv);
}

pub identity_after-IdentityInv :
    (python : Python) (db : IdentityDb) (c : IdentityCall)
    → IdentityInv db
    → IdentityInv (identity_after python db c)
unfolding identity_after
identity_after-IdentityInv python db (call_resolve e fresh now) h =
    step-IdentityInv db _ (resolve-MapStep python e fresh now db)
      (resolve-DbStep python e fresh now db) h
identity_after-IdentityInv python db (call_review review_id id operator moment) h =
    step-IdentityInv db _ (resolve_review-MapStep review_id id operator moment db)
      (resolve_review-DbStep review_id id operator moment db) h
identity_after-IdentityInv python db (call_import rows) h = record {
  event_ids = h.event_ids;
  mapped_once = h.mapped_once;
  mapped_stored = h.mapped_stored;
  alias_once = import_aliases-Keyed python rows db.aliases h.alias_once;
  queue_inv = h.queue_inv;
}

run_from-IdentityInv :
    (python : Python) (db : IdentityDb) (calls : List IdentityCall)
    → IdentityInv db
    → IdentityInv (identity_run python db calls)
unfolding identity_run
run_from-IdentityInv python db [] h = h
run_from-IdentityInv python db (c ∷ calls) h =
    run_from-IdentityInv python (identity_after python db c) calls
      (identity_after-IdentityInv python db c h)

pub empty-IdentityInv : IdentityInv empty_identity
unfolding row_count
empty-IdentityInv = record {
  event_ids = λ k. omega arith;
  mapped_once = λ k. omega arith;
  mapped_stored = tt;
  alias_once = λ k. omega arith;
  queue_inv = record {
    review_pairs = λ k. omega arith;
    review_ids = λ k. omega arith;
    below_next = tt;
    decided = tt;
  };
}

-- Whatever is called, in whatever order, from empty tables: each internal id has one event; each
-- provider's id has one mapping, and the event it names is stored; each alias key has one alias; each
-- pair and each number has one review; and every review is open or names exactly the event that its
-- pair is mapped to.
pub identity_run-IdentityInv :
    (python : Python) (calls : List IdentityCall)
    → IdentityInv (identity_run python empty_identity calls)
identity_run-IdentityInv python calls =
    run_from-IdentityInv python empty_identity calls empty-IdentityInv
