-- ===== src/Outbox/Unsent.antt =====
-- A claim whose delivery was never confirmed stays in sight.
use betmaxxing.Prelude.{
  ℕ, ◌≡◌, refl, sym, ◌∙◌, Bool, true, false, ◌&&◌, ◌||◌, Option, none, some, List, [], ◌∷◌, ◌++◌,
  arith, Bool-cases, Option-cases, inl, inr, eq_iff,
}
use betmaxxing.Table.{scalar, select, update, scalar-append}
use betmaxxing.Outbox.Defs.{
  NotificationOutboxRow, DeliveryKey, OutboxDb, of_key, claim, claim_row, mark_sent, is_unsent,
  sent, unsent, empty_outbox,
}
use betmaxxing.Outbox.Once.{
  OutboxCall, call_claim, call_sent, same_key, outbox_after, is_there, taken, claim-taken,
  mark_sent-taken, claims_key,
}

select-append :
    (p : NotificationOutboxRow → Bool) (xs ys : List NotificationOutboxRow)
    → select p (xs ++ ys) ≡ select p xs ++ select p ys
unfolding select
select-append p [] ys = refl
select-append p (x ∷ xs) ys = ground (arith, select-append p xs ys)

-- A delivery that was claimed and not confirmed is in `unsent`.
abbrev visible : DeliveryKey → OutboxDb → Bool
visible k db = is_there (scalar (of_key k) (unsent db))

claim-visible :
    (k l : DeliveryKey) (moment : ℕ) (db : OutboxDb)
    → visible k db ≡ taken k db
    → visible k (claim l moment db).1 ≡ taken k (claim l moment db).1
unfolding claim unsent
claim-visible k l moment db h = elim (Option-cases (scalar (of_key l) db.rows)) [
  | inr (r, e) ↦ rw (e, claim) h
  | inl free ↦
      rw (free, claim)
        (rw (select-append is_unsent db.rows (claim_row db.next_id l moment ∷ [])) (
          unfold select in
          rw
            (
              scalar-append (of_key k) (select is_unsent db.rows)
                  (claim_row db.next_id l moment ∷ []),
              scalar-append (of_key k) db.rows (claim_row db.next_id l moment ∷ []),
            )
            (grown (scalar (of_key k) (select is_unsent db.rows)) (scalar (of_key k) db.rows) h)))
]
  where
    grown :
        (a b : Option NotificationOutboxRow)
        → is_there a ≡ is_there b
        → is_there (elim a [
          | none ↦ scalar (of_key k) (claim_row db.next_id l moment ∷ [])
          | some r ↦ some r
        ])
          ≡ is_there (elim b [
            | none ↦ scalar (of_key k) (claim_row db.next_id l moment ∷ [])
            | some r ↦ some r
          ])
    grown none none e = refl
    grown (some r) (some s) e = refl
    grown none (some s) e = cc
    grown (some r) none e = cc

-- A confirmation of another key leaves the rows of this one unsent.
other_sent :
    (k l : DeliveryKey) (moment : ℕ) (rows : List NotificationOutboxRow)
    → same_key l k ≡ false
    → is_there (
        scalar
          (of_key k)
          (select is_unsent (update (λ r. of_key l r && is_unsent r) (sent moment) rows)))
      ≡ is_there (scalar (of_key k) (select is_unsent rows))
unfolding scalar select update
other_sent k l moment [] other = refl
other_sent k l moment (r ∷ rows) other =
    let ih = other_sent k l moment rows other in
    elim (Bool-cases (of_key l r && is_unsent r)) [
      | inr miss ↦ rw miss (ground (arith, ih))
      | inl hit ↦ let apart = other_row r hit in rw hit (ground (arith, ih, apart))
    ]
  where
    other_row :
        (r : NotificationOutboxRow) → (of_key l r && is_unsent r) ≡ true → of_key k r ≡ false
    other_row r hit = ground (
      arith,
      other,
      eq_iff r.job_id l.job_id,
      eq_iff r.alert_key l.alert_key,
      eq_iff r.channel l.channel,
    )

unfoldable pub outbox_run : OutboxDb → List OutboxCall → OutboxDb
outbox_run db [] = db
outbox_run db (c ∷ calls) = outbox_run (outbox_after db c) calls

-- whether a confirmation under the key is among the calls
unfoldable pub confirms_key : DeliveryKey → List OutboxCall → Bool
confirms_key k [] = false
confirms_key k (call_claim l moment ∷ calls) = confirms_key k calls
confirms_key k (call_sent l moment ∷ calls) = same_key l k || confirms_key k calls

visible_from :
    (k : DeliveryKey) (db : OutboxDb) (calls : List OutboxCall)
    → confirms_key k calls ≡ false
    → visible k db ≡ taken k db
    → visible k (outbox_run db calls) ≡ (taken k db || claims_key k calls)
unfolding outbox_run confirms_key claims_key mark_sent unsent
visible_from k db [] quiet h = ground (arith, h)
visible_from k db (call_claim l moment ∷ calls) quiet h =
    let ih = visible_from k (claim l moment db).1 calls quiet (claim-visible k l moment db h) in
    ground (arith, ih, claim-taken k l moment db)
visible_from k db (call_sent l moment ∷ calls) quiet h =
    let apart : same_key l k ≡ false = ground arith in
    let ih =
      visible_from k (mark_sent l moment db) calls (ground arith)
        (other_sent k l moment db.rows apart ∙ h ∙ sym (mark_sent-taken k l moment db)) in
    ground (arith, ih, mark_sent-taken k l moment db)

-- A crash between the claim and the delivery is never silent: from an empty table, whatever is called
-- for other keys, a key whose delivery was not confirmed is listed by `unsent` exactly if it was
-- claimed.
pub unconfirmed_visible :
    (k : DeliveryKey) (calls : List OutboxCall)
    → confirms_key k calls ≡ false
    → is_there (scalar (of_key k) (unsent (outbox_run empty_outbox calls))) ≡ claims_key k calls
unfolding unsent scalar select
unconfirmed_visible k calls quiet = visible_from k empty_outbox calls quiet refl
