-- ===== src/Identity/Queue.antt =====
-- The review queue of the identity service: its keys, and the record of what operators decided.
use betmaxxing.Prelude.{
  ℕ, ◌+◌, ◌≤◌, ◌<◌, ◌≡◌, refl, ap, sym, ◌∙◌, subst, String, Bool, true, false, ◌&&◌, none, some,
  List, [], ◌∷◌, ◌++◌, arith, inl, inr, ◌⊎◌, eq_iff, str_eq, All, All-append, ◌==◌,
}
use betmaxxing.Table.{
  scalar, update, Keyed, row_count-update, append-Keyed, All-map, All-update, All-update_to,
  All-both, keyed_only,
}
use betmaxxing.Identity.Rows.{EventSourceMapRow, EventMappingReviewRow, review_of}
use betmaxxing.Identity.Review.{by_review_id, review_key, closed_by}
use betmaxxing.Identity.Trace.{lookup}
use betmaxxing.Identity.Registry.{MapStep}
use betmaxxing.Identity.Stable.{MapStep-lookup}

-- What an update of a review leaves alone.
pub record Keeps (f : EventMappingReviewRow → EventMappingReviewRow) : Type 0 where
  pub same_id : (r : EventMappingReviewRow) → (f r).id ≡ r.id
  pub same_source : (r : EventMappingReviewRow) → review_key (f r) ≡ review_key r
  pub same_answer : (r : EventMappingReviewRow) → (f r).resolved ≡ r.resolved
  pub same_choice :
      (r : EventMappingReviewRow) → (f r).resolved_internal_id ≡ r.resolved_internal_id

-- What one transaction does to the reviews, with the mapping table it ends with.
pub data ReviewStep (source_map : List EventSourceMapRow) (next : ℕ)
    (before : List EventMappingReviewRow) : ℕ → List EventMappingReviewRow → Type 0 where
  no_review : ReviewStep source_map next before next before
  review_changed :
      (p : EventMappingReviewRow → Bool) (f : EventMappingReviewRow → EventMappingReviewRow)
      → Keeps f
      → ReviewStep source_map next before next (update p f before)
  review_queued :
      (r : EventMappingReviewRow)
      → r.id ≡ next
      → r.resolved ≡ false
      → scalar (review_of (review_key r)) before ≡ none
      → ReviewStep source_map next before (next + 1) (before ++ r ∷ [])
  review_decided :
      (review_id : ℕ) (r : EventMappingReviewRow) (id operator : String) (moment : ℕ)
      → scalar (by_review_id review_id) before ≡ some r
      → lookup (review_key r) source_map ≡ some id
      → ReviewStep source_map next before next
          (update (by_review_id review_id) (closed_by id operator moment) before)

-- A review is open, or it names the event that its pair is mapped to.
abbrev pub Decided : List EventSourceMapRow → EventMappingReviewRow → Type 0
Decided source_map r =
    (r.resolved ≡ false)
    ⊎ ((id : String) × (r.resolved_internal_id ≡ some id)
        × (lookup (review_key r) source_map ≡ some id))

pub record QueueInv (source_map : List EventSourceMapRow) (next : ℕ)
    (reviews : List EventMappingReviewRow) : Type 0 where
  pub review_pairs : Keyed review_of reviews
  pub review_ids : Keyed by_review_id reviews
  pub below_next : All (λ r. r.id < next) reviews
  pub decided : All (Decided source_map) reviews

-- A decision stands while the registry grows.
pub MapStep-Decided :
    (before after : List EventSourceMapRow)
    → MapStep before after
    → (r : EventMappingReviewRow) → Decided before r
    → Decided after r
MapStep-Decided before after step r (inl open_yet) = inl open_yet
MapStep-Decided before after step r (inr (id, chosen, mapped)) =
    inr (id, chosen, MapStep-lookup (review_key r) {id = id} before after step mapped)

pub MapStep-QueueInv :
    (before after : List EventSourceMapRow) (next : ℕ) (reviews : List EventMappingReviewRow)
    → MapStep before after
    → QueueInv before next reviews
    → QueueInv after next reviews
MapStep-QueueInv before after next reviews step h = record {
  review_pairs = h.review_pairs;
  review_ids = h.review_ids;
  below_next = h.below_next;
  decided =
      All-map (Decided before) (Decided after) reviews (MapStep-Decided before after step)
        h.decided;
}

none_below :
    (next : ℕ) (reviews : List EventMappingReviewRow)
    → All (λ r. r.id < next) reviews
    → scalar (by_review_id next) reviews ≡ none
unfolding scalar
none_below next [] h = refl
none_below next (r ∷ reviews) h = let first = h.0 in ground (arith, none_below next reviews h.1)

Keeps-Decided :
    (source_map : List EventSourceMapRow) (f : EventMappingReviewRow → EventMappingReviewRow)
    → Keeps f
    → (r : EventMappingReviewRow) → Decided source_map r
    → Decided source_map (f r)
Keeps-Decided source_map f keeps r (inl open_yet) = inl (keeps.same_answer r ∙ open_yet)
Keeps-Decided source_map f keeps r (inr (id, chosen, mapped)) =
    inr (
      id,
      keeps.same_choice r ∙ chosen,
      ap (λ k. lookup k source_map) (keeps.same_source r) ∙ mapped,
    )

-- An update that keeps ids and pairs keeps both keys and the bound.
update-Keyed :
    {K : Type 0} (by : K → EventMappingReviewRow → Bool) (p : EventMappingReviewRow → Bool)
    (f : EventMappingReviewRow → EventMappingReviewRow) (reviews : List EventMappingReviewRow)
    → ((k : K) (r : EventMappingReviewRow) → by k (f r) ≡ by k r)
    → Keyed by reviews
    → Keyed by (update p f reviews)
update-Keyed by p f reviews keeps h =
    λ k. subst (λ n. n ≤ 1) (sym (row_count-update (by k) p f (keeps k) reviews)) (h k)

pub ReviewStep-QueueInv :
    (source_map : List EventSourceMapRow) (next next' : ℕ)
    (before after : List EventMappingReviewRow)
    → ReviewStep source_map next before next' after
    → QueueInv source_map next before
    → QueueInv source_map next' after
ReviewStep-QueueInv m next _ before _ no_review h = h
ReviewStep-QueueInv m next _ before _ (review_changed p f keeps) h = record {
  review_pairs =
      update-Keyed review_of p f before
        (λ k r.
          ap (λ s. str_eq s.provider k.provider && str_eq s.provider_event_id k.provider_event_id)
            (keeps.same_source r))
        h.review_pairs;
  review_ids =
      update-Keyed by_review_id p f before (λ k r. ap (λ n. n == k) (keeps.same_id r)) h.review_ids;
  below_next =
      All-update (λ r. r.id < next) p f before
        (λ r _ b. subst (λ n. n < next) (sym (keeps.same_id r)) b) h.below_next;
  decided = All-update (Decided m) p f before (λ r _ d. Keeps-Decided m f keeps r d) h.decided;
}
ReviewStep-QueueInv m next _ before _ (review_queued r fresh open_yet free) h = record {
  review_pairs =
      append-Keyed review_of r (review_key r) before
        (λ k e.
          ground (
            arith,
            e,
            eq_iff r.provider k.provider,
            eq_iff r.provider_event_id k.provider_event_id,
          ))
        free h.review_pairs;
  review_ids =
      append-Keyed by_review_id r next before (λ k e. ground (arith, e, fresh))
        (none_below next before h.below_next) h.review_ids;
  below_next =
      All-append (λ x. x.id < next + 1) before (r ∷ [])
        (All-map (λ x. x.id < next) (λ x. x.id < next + 1) before (λ x b. omega arith) h.below_next)
        (omega (arith, fresh), tt);
  decided = All-append (Decided m) before (r ∷ []) h.decided (inl open_yet, tt);
}
ReviewStep-QueueInv m next _ before _ (review_decided review_id r id operator moment found mapped)
      h =
    record {
      review_pairs =
          update-Keyed review_of (by_review_id review_id) (closed_by id operator moment) before
            (λ k x. refl) h.review_pairs;
      review_ids =
          update-Keyed by_review_id (by_review_id review_id) (closed_by id operator moment) before
            (λ k x. refl) h.review_ids;
      below_next =
          All-update (λ x. x.id < next) (by_review_id review_id) (closed_by id operator moment)
            before (λ x _ b. b) h.below_next;
      decided =
          All-update_to (λ x. Decided m x × (by_review_id review_id x ≡ true → x ≡ r)) (Decided m)
            (by_review_id review_id) (closed_by id operator moment) before
            (λ x e d. inr (id, refl, ap (λ y. lookup (review_key y) m) (d.1 e) ∙ mapped))
            (λ x d. d.0)
            (All-both (Decided m) (λ x. by_review_id review_id x ≡ true → x ≡ r) before h.decided
              (keyed_only (by_review_id review_id) before r (h.review_ids review_id) found));
    }
