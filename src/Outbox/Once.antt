-- ===== src/Outbox/Once.antt =====
-- One delivery is authorised at most once, under any interleaving of the workers' calls.
use betmaxxing.Prelude.{
  ℕ, ◌+◌, ◌≡◌, refl, ap, Bool, true, false, ◌&&◌, ◌||◌, not, Option, none, some, List, [], ◌∷◌,
  arith, str_eq, if◌then◌else◌, Bool-cases, Option-cases, inl, inr, eq_iff,
}
use betmaxxing.Table.{scalar, scalar-append, scalar-update}
use betmaxxing.Outbox.Defs.{
  NotificationOutboxRow, DeliveryKey, OutboxDb, of_key, claim, claim_row, mark_sent, is_unsent,
  sent, empty_outbox,
}

-- One call: the boolean of a claim authorises a delivery.
pub data OutboxCall : Type 0 where
  call_claim call_sent : DeliveryKey → ℕ → OutboxCall

abbrev pub same_key : DeliveryKey → DeliveryKey → Bool
same_key k l =
    str_eq k.job_id l.job_id && (str_eq k.alert_key l.alert_key && str_eq k.channel l.channel)

abbrev pub outbox_after : OutboxDb → OutboxCall → OutboxDb
outbox_after db (call_claim k moment) = (claim k moment db).1
outbox_after db (call_sent k moment) = mark_sent k moment db

-- whether a call authorises a delivery under the key
abbrev pub authorises : DeliveryKey → OutboxDb → OutboxCall → Bool
authorises k db (call_claim l moment) = same_key l k && (claim l moment db).0
authorises k db (call_sent l moment) = false

-- how many deliveries under the key a sequence of calls authorises
unfoldable pub authorised : DeliveryKey → OutboxDb → List OutboxCall → ℕ
authorised k db [] = 0
authorised k db (c ∷ calls) =
    (if authorises k db c then 1 else 0) + authorised k (outbox_after db c) calls

-- whether the table holds a row of the key
abbrev pub is_there : Option NotificationOutboxRow → Bool
is_there none = false
is_there (some r) = true

abbrev pub taken : DeliveryKey → OutboxDb → Bool
taken k db = is_there (scalar (of_key k) db.rows)

same_key-taken : (k l : DeliveryKey) (db : OutboxDb) → same_key l k ≡ true → taken l db ≡ taken k db
same_key-taken k l db e = ap (λ x. taken x db) same
  where
    same : l ≡ k
    same = ground (
      arith,
      eq_iff l.job_id k.job_id,
      eq_iff l.alert_key k.alert_key,
      eq_iff l.channel k.channel,
    )

-- A claim is granted exactly if its key was free.
claim-granted :
    (k : DeliveryKey) (moment : ℕ) (db : OutboxDb) → (claim k moment db).0 ≡ not (taken k db)
unfolding claim
claim-granted k moment db = elim (Option-cases (scalar (of_key k) db.rows)) [
  | inl free ↦ rw (free, claim) refl
  | inr (r, e) ↦ rw (e, claim) refl
]

-- A claim takes its key, and no other.
pub claim-taken :
    (k l : DeliveryKey) (moment : ℕ) (db : OutboxDb)
    → taken k (claim l moment db).1 ≡ (taken k db || same_key l k)
unfolding claim
claim-taken k l moment db = elim (Option-cases (scalar (of_key l) db.rows)) [
  | inr (r, e) ↦
      rw (e, claim)
        (elim (Bool-cases (same_key l k)) [
          | inl same ↦ let there = same_key-taken k l db same in ground (arith, there, e)
          | inr other ↦ rw other (ground arith)
        ])
  | inl free ↦
      rw (free, claim)
        (rw (scalar-append (of_key k) db.rows (claim_row db.next_id l moment ∷ []))
          (found (scalar (of_key k) db.rows)))
]
  where
    found :
        (o : Option NotificationOutboxRow)
        → is_there (elim o [
          | none ↦ scalar (of_key k) (claim_row db.next_id l moment ∷ [])
          | some r ↦ some r
        ])
          ≡ (is_there o || same_key l k)
    found none = unfold scalar in ground arith
    found (some r) = refl

pub mark_sent-taken :
    (k l : DeliveryKey) (moment : ℕ) (db : OutboxDb) → taken k (mark_sent l moment db) ≡ taken k db
unfolding mark_sent
mark_sent-taken k l moment db =
    rw (scalar-update (of_key k) (λ r. of_key l r && is_unsent r) (sent moment) (λ r. refl) db.rows)
      (still (scalar (of_key k) db.rows))
  where
    still :
        (o : Option NotificationOutboxRow)
        → is_there (elim o [
          | none ↦ none
          | some r ↦ some (if of_key l r && is_unsent r then sent moment r else r)
        ])
          ≡ is_there o
    still none = refl
    still (some r) = refl

-- whether a claim under the key is among the calls
unfoldable pub claims_key : DeliveryKey → List OutboxCall → Bool
claims_key k [] = false
claims_key k (call_claim l moment ∷ calls) = same_key l k || claims_key k calls
claims_key k (call_sent l moment ∷ calls) = claims_key k calls

authorised_from :
    (k : DeliveryKey) (db : OutboxDb) (calls : List OutboxCall)
    → authorised k db calls ≡ (if not (taken k db) && claims_key k calls then 1 else 0)
unfolding authorised claims_key
authorised_from k db [] = ground arith
authorised_from k db (call_claim l moment ∷ calls) =
    let ih = authorised_from k (claim l moment db).1 calls in
    elim (Bool-cases (same_key l k)) [
      | inl same ↦ ground (
        arith,
        ih,
        claim-taken k l moment db,
        claim-granted l moment db,
        same_key-taken k l db same,
      )
      | inr other ↦ ground (arith, ih, claim-taken k l moment db)
    ]
authorised_from k db (call_sent l moment ∷ calls) =
    let ih = authorised_from k (mark_sent l moment db) calls in
    ground (arith, ih, mark_sent-taken k l moment db)

-- However the calls of any number of workers are ordered, from an empty table, exactly one delivery
-- is authorised under a key that is claimed, and none under any other.
pub authorised_once :
    (k : DeliveryKey) (calls : List OutboxCall)
    → authorised k empty_outbox calls ≡ (if claims_key k calls then 1 else 0)
unfolding scalar
authorised_once k calls = authorised_from k empty_outbox calls
