-- ===== src/Identity/Decision.antt =====
-- What an operator's decision does, and that it is made once.
use betmaxxing.Prelude.{
  ℕ, ◌≡◌, refl, ◌∙◌, subst, String, true, false, none, some, List, arith, Option-cases, inl, inr,
  ok, err,
}
use betmaxxing.Table.{scalar, update, scalar-update, scalar_sound}
use betmaxxing.Names.Defs.{is_among}
use betmaxxing.Identity.Rows.{IdentityDb, EventMappingReviewRow, ResolvedEvent}
use betmaxxing.Identity.Mapped.{link}
use betmaxxing.Identity.Review.{
  already_resolved, resolve_review, review_problem, settle_review, closed_by, by_review_id,
  review_key,
}
use betmaxxing.Identity.Trace.{lookup}
use betmaxxing.Identity.Stable.{lookup_bound}
use betmaxxing.Identity.Registry.{review_problem-Accepted}

-- What an accepted decision rests on and leaves.
pub record Attached (review_id : ℕ) (id : String) (before after : IdentityDb) : Type 0 where
  pub chosen : EventMappingReviewRow
  pub found : scalar (by_review_id review_id) before.reviews ≡ some chosen
  pub was_open : chosen.resolved ≡ false
  pub was_candidate : is_among id chosen.candidate_internal_ids ≡ true
  pub was_free : lookup (review_key chosen) before.source_map ≡ none
  pub attached : lookup (review_key chosen) after.source_map ≡ some id
  pub same_history : after.history ≡ before.history

-- A decision of `resolve_review` that is accepted was made on an open review, for one of its
-- candidates and a pair that had no mapping; it maps the pair to the chosen event and rewrites no
-- history.
pub resolve_review-Attached :
    (review_id : ℕ) (id operator : String) (moment : ℕ) (db : IdentityDb) {a : ResolvedEvent}
    → (resolve_review review_id id operator moment db).0 ≡ ok a
    → Attached review_id id db (resolve_review review_id id operator moment db).1
unfolding resolve_review link
resolve_review-Attached review_id id operator moment db h =
    elim (Option-cases (scalar (by_review_id review_id) db.reviews)) [
      | inl missing ↦ absurd (ground (arith, h, missing))
      | inr (r, e) ↦ elim (Option-cases (review_problem id r db)) [
        | inr (p, bad) ↦ absurd (ground (arith, h, e, bad))
        | inl good ↦
            let fine = review_problem-Accepted id r db good in
            rw (e, good, resolve_review)
              record {
                chosen = r;
                found = e;
                was_open = fine.open_review;
                was_candidate = fine.listed;
                was_free = rw fine.unclaimed refl;
                attached = lookup_bound (review_key r) id db.source_map fine.unclaimed;
                same_history = refl;
              }
      ]
    ]

closed_by-found :
    (review_id : ℕ) (id operator : String) (moment : ℕ) (r : EventMappingReviewRow)
    (rows : List EventMappingReviewRow)
    → scalar (by_review_id review_id) rows ≡ some r
    → scalar
        (by_review_id review_id)
        (update (by_review_id review_id) (closed_by id operator moment) rows)
      ≡ some (closed_by id operator moment r)
closed_by-found review_id id operator moment r rows e =
    scalar-update (by_review_id review_id) (by_review_id review_id) (closed_by id operator moment)
      (λ x. refl) rows
    ∙ rw (e, scalar_sound (by_review_id review_id) rows {r = r} e) refl

closed_again :
    (review_id : ℕ) (id operator : String) (moment : ℕ) (r : EventMappingReviewRow)
    (db : IdentityDb)
    → scalar (by_review_id review_id) db.reviews ≡ some r
    → r.resolved ≡ true
    → resolve_review review_id id operator moment db ≡ (err already_resolved, db)
unfolding resolve_review review_problem
closed_again review_id id operator moment r db e closed =
    rw (resolve_review, e, review_problem, closed) refl

-- A review is decided once: after an accepted decision, any further decision on the same review, by
-- anyone and for any event, is refused as already resolved and changes nothing.
pub resolve_review_once :
    (review_id : ℕ) (id operator : String) (moment : ℕ) (id' operator' : String) (moment' : ℕ)
    (db : IdentityDb) {a : ResolvedEvent}
    → (resolve_review review_id id operator moment db).0 ≡ ok a
    → resolve_review review_id id' operator' moment'
        (resolve_review review_id id operator moment db).1
      ≡ (err already_resolved, (resolve_review review_id id operator moment db).1)
unfolding resolve_review link
resolve_review_once review_id id operator moment id' operator' moment' db h =
    elim (Option-cases (scalar (by_review_id review_id) db.reviews)) [
      | inl missing ↦ absurd (ground (arith, h, missing))
      | inr (r, e) ↦ elim (Option-cases (review_problem id r db)) [
        | inr (p, bad) ↦ absurd (ground (arith, h, e, bad))
        | inl good ↦
            let after = settle_review review_id id operator moment r db in
            subst
              (λ x. resolve_review review_id id' operator' moment' x ≡ (err already_resolved, x))
              (rw (resolve_review, e, good) refl)
              (closed_again review_id id' operator' moment' (closed_by id operator moment r) after
                (closed_by-found review_id id operator moment r db.reviews e) refl)
      ]
    ]
