-- ===== src/Client/Spend.antt =====
-- What a call of `get` may spend, and how a failed attempt is accounted.
use betmaxxing.Prelude.{
  ℕ, zero, suc, ◌+◌, ◌≡◌, refl, Bool, true, false, ◌&&◌, Option, none, some, arith, ◌==◌, str_eq,
  if◌then◌else◌, String, Bool-cases, Option-cases, inl, inr, Result, ok, err, ap, sym, ◌∙◌, subst,
}
use betmaxxing.Prelude.Int.{ℤ, pos, ◌+ℤ◌, ◌≤ℤ◌, +ℤ_parts}
use betmaxxing.Budget.Defs.{
  BudgetDb, BudgetExceeded, scan_budget_exceeded, reserve, release, over_scan, estimated_cost,
  counter, day_key,
}
use betmaxxing.Budget.Invariant.{BudgetInv}
use betmaxxing.Budget.Refund.{release-reserve, granted}
use betmaxxing.Client.Defs.{
  HttpxError, ClientConfig, Request, ClientState, Reply, raised, answered, QuotaInfo, Headers,
  parse_quota, may_have_been_billed, is_transport_error, never_sent, settle_failure,
  settle_response, client_reserve, client_reconcile, client_release, reserved, reservation,
  over_budget, or_cost, settle, settle_reserved, attempt_once, get_from, get,
}
use betmaxxing.Client.Attempts.{Outcome-cases}

-- A reply whose `x-requests-last`, where there is one, is at most the cost that was asked for.
abbrev pub HonestReply : {Payload : Type 0} → ClientConfig → Request → Reply Payload → Type 0
HonestReply config q (raised e) = Unit
HonestReply config q (answered r) =
    (c : ℤ) → (parse_quota config.read_int r.headers).last_cost ≡ some c → c ≤ℤ q.cost

abbrev Within : ClientConfig → ClientState → Type 0
Within config st = st.spent ≤ℤ config.budget_per_scan

module _ (config : ClientConfig) (q : Request) where
  billable_attempt :
      {Payload : Type 0} (attempt : ℕ) (reply : Reply Payload) (st : ClientState)
      → q.billable ≡ true
      → attempt_once config q attempt reply st
        ≡ settle_reserved config q attempt reply st (client_reserve config q st)
  unfolding attempt_once
  billable_attempt attempt reply st billable =
      ap
        (λ b.
          settle_reserved config q attempt reply st
            (if b then client_reserve config q st else ok (none, st)))
        billable

module _ (config : ClientConfig) (q : Request) (costs : pos 0 ≤ℤ q.cost) where
  -- A reservation is only granted where the scan has room for the cost.
  abbrev Room : ClientState → Result BudgetExceeded (Option ℕ × ClientState) → Type 0
  Room st (ok (id, st')) = (st.spent +ℤ q.cost ≤ℤ config.budget_per_scan) × (st'.spent ≡ st.spent)
  Room st (err e) = Unit

  scan_refused :
      (db : BudgetDb) (st : ClientState)
      → over_scan st.spent (estimated_cost q.cost) (some config.budget_per_scan) ≡ true
      → reserve config.daily_budget (reservation config q st) db ≡ err scan_budget_exceeded
  unfolding reserve
  scan_refused db st over = rw over refl

  estimate_covers :
      (st : ClientState)
      → over_scan st.spent (estimated_cost q.cost) (some config.budget_per_scan) ≡ false
      → st.spent +ℤ q.cost ≤ℤ config.budget_per_scan
  estimate_covers st under =
      ground (arith, +ℤ_parts st.spent q.cost, +ℤ_parts st.spent (pos (estimated_cost q.cost)))

  shared-Room :
      (db : BudgetDb) (st : ClientState)
      → Room st (reserved st (reserve config.daily_budget (reservation config q st) db))
  shared-Room db st =
      elim (Bool-cases (over_scan st.spent (estimated_cost q.cost) (some config.budget_per_scan))) [
        | inl over ↦ rw (scan_refused db st over) tt
        | inr under ↦
            split (reserve config.daily_budget (reservation config q st) db)
              (estimate_covers st under)
      ]
    where
      split :
          (r : Result BudgetExceeded (ℕ × BudgetDb))
          → st.spent +ℤ q.cost ≤ℤ config.budget_per_scan
          → Room st (reserved st r)
      split (ok (id, db')) h = (h, refl)
      split (err e) h = tt

  cost_fits :
      (st : ClientState)
      → over_budget config q.cost st ≡ false
      → st.spent +ℤ q.cost ≤ℤ config.budget_per_scan
  cost_fits st under = ground (arith, +ℤ_parts st.spent q.cost)

  client_reserve-Room : (st : ClientState) → Room st (client_reserve config q st)
  unfolding client_reserve
  client_reserve-Room st = elim (Option-cases st.ledger) [
    | inr (db, e) ↦ rw (e, client_reserve) (shared-Room db st)
    | inl e ↦
        rw (e, client_reserve)
          (elim (Bool-cases (over_budget config q.cost st)) [
            | inl over ↦ rw over tt
            | inr under ↦ rw under (cost_fits st under, refl)
          ])
  ]

  release-spent : (id : Option ℕ) (st : ClientState) → (client_release id st).spent ≡ st.spent
  unfolding client_release
  release-spent none st = refl
  release-spent (some id) st = elim (Option-cases st.ledger) [
    | inl e ↦ rw (e, client_release) refl
    | inr (db, e) ↦ rw (e, client_release) refl
  ]

  reconcile-spent :
      (id : Option ℕ) (observed : Option ℤ) (st : ClientState)
      → (client_reconcile id observed st).spent ≡ st.spent
  unfolding client_reconcile
  reconcile-spent none observed st = refl
  reconcile-spent (some id) observed st = elim (Option-cases st.ledger) [
    | inl e ↦ rw (e, client_reconcile) refl
    | inr (db, e) ↦ rw (e, client_reconcile) refl
  ]

  billable_response :
      (id : Option ℕ) (headers : Headers) (st : ClientState)
      → q.billable ≡ true
      → (settle_response config q id headers st).spent
        ≡ st.spent +ℤ or_cost (parse_quota config.read_int headers).last_cost q.cost
  unfolding settle_response
  billable_response id headers st billable =
      ap (λ b. (settle_if b).spent) billable ∙ reconcile-spent id quota.last_cost _
    where
      quota : QuotaInfo
      quota = parse_quota config.read_int headers

      settle_if : Bool → ClientState
      settle_if b =
          if b
          then client_reconcile id quota.last_cost
              (record st { quota = quota; spent = st.spent +ℤ or_cost quota.last_cost q.cost })
          else record st { quota = quota }

  -- What an attempt adds to `_spent` is at most the cost that the reservation made room for.
  settle-Within :
      {Payload : Type 0} (attempt : ℕ) (id : Option ℕ) (reply : Reply Payload) (st : ClientState)
      → q.billable ≡ true
      → HonestReply config q reply
      → st.spent +ℤ q.cost ≤ℤ config.budget_per_scan
      → Within config (settle config q attempt id reply st).1
  unfolding settle settle_failure
  settle-Within attempt id (raised e) st billable honest room =
      elim (Bool-cases (is_transport_error e)) [
        | inr uncaught ↦ rw uncaught (ground (arith, +ℤ_parts st.spent q.cost))
        | inl caught ↦ rw caught (elim (Bool-cases (never_sent e)) [
          | inr billed ↦ rw billed room
          | inl free ↦ rw free (rw (release-spent id st) (ground (arith, +ℤ_parts st.spent q.cost)))
        ])
      ]
  settle-Within attempt id (answered r) st billable honest room =
      rw (billable_response id r.headers st billable)
        (charge_fits (parse_quota config.read_int r.headers).last_cost honest)
    where
      charge_fits :
          (cost : Option ℤ)
          → ((c : ℤ) → cost ≡ some c → c ≤ℤ q.cost)
          → st.spent +ℤ or_cost cost q.cost ≤ℤ config.budget_per_scan
      charge_fits none h = room
      charge_fits (some c) h =
          ground (arith, +ℤ_parts st.spent q.cost, +ℤ_parts st.spent c, h c refl)

  attempt_once-Within :
      {Payload : Type 0} (attempt : ℕ) (reply : Reply Payload) (st : ClientState)
      → q.billable ≡ true
      → HonestReply config q reply
      → Within config st
      → Within config (attempt_once config q attempt reply st).1
  attempt_once-Within attempt reply st billable honest within =
      rw (billable_attempt config q attempt reply st billable)
        (split (client_reserve config q st) (client_reserve-Room st))
    where
      split :
          (r : Result BudgetExceeded (Option ℕ × ClientState))
          → Room st r
          → Within config (settle_reserved config q attempt reply st r).1
      split (err e) room = within
      split (ok (id, st')) (room, same) =
          settle-Within attempt id reply st' billable honest
            (subst (λ s. s +ℤ q.cost ≤ℤ config.budget_per_scan) (sym same) room)

  get_from-Within :
      {Payload : Type 0} (replies : ℕ → Reply Payload) (fuel attempt : ℕ) (st : ClientState)
      → q.billable ≡ true
      → ((n : ℕ) → HonestReply config q (replies n))
      → Within config st
      → Within config (get_from config q replies fuel attempt st).1
  unfolding get_from
  get_from-Within replies zero attempt st billable honest within = within
  get_from-Within replies (suc fuel) attempt st billable honest within =
      let once =
        attempt_once-Within attempt (replies attempt) st billable (honest attempt) within in
      elim (Outcome-cases (attempt_once config q attempt (replies attempt) st).0) [
        | inl e ↦
            rw (e, get_from) (get_from-Within replies fuel (attempt + 1) _ billable honest once)
        | inr (r, e) ↦ rw (e, get_from) once
      ]

-- Retries do not multiply the ceiling: while the provider reports no more than the cost that was asked
-- for, which is not negative, a billable call that starts within the scan's budget ends within it,
-- whatever is answered.
pub get_within_budget :
    {Payload : Type 0} (config : ClientConfig) (q : Request) (replies : ℕ → Reply Payload)
    (st : ClientState)
    → pos 0 ≤ℤ q.cost
    → q.billable ≡ true
    → ((n : ℕ) → HonestReply config q (replies n))
    → st.spent ≤ℤ config.budget_per_scan
    → (get config q replies st).1.spent ≤ℤ config.budget_per_scan
unfolding get
get_within_budget config q replies st costs billable honest within =
    get_from-Within config q costs replies (config.max_retries + 1) 1 st billable honest within

module _ (Payload : Type 0) (config : ClientConfig) (q : Request) (attempt : ℕ) (e : HttpxError)
    (st : ClientState) (db db' : BudgetDb) (id : ℕ) (shared : st.ledger ≡ some db)
    (grant : reserve config.daily_budget (reservation config q st) db ≡ ok (id, db')) where
  granted_attempt :
      q.billable ≡ true
      → attempt_once {Payload = Payload} config q attempt (raised e) st
        ≡ settle config q attempt (some id) (raised e) (record st { ledger = some db' })
  unfolding client_reserve
  granted_attempt billable =
      billable_attempt config q attempt (raised e) st billable
      ∙ ap (settle_reserved config q attempt (raised e) st) (
          ap
            (λ ledger. elim ledger [
              | none ↦
                  if over_budget config q.cost st then err scan_budget_exceeded else ok (none, st)
              | some db ↦ reserved st (reserve config.daily_budget (reservation config q st) db)
            ])
            shared
          ∙ ap (reserved st) grant)

  -- A billable attempt, granted by a consistent shared ledger, that fails in transport is charged, to
  -- the scan by its cost and to the provider's day by its estimate, exactly if the request may have
  -- been billed; otherwise both are as before it.
  pub failure_accounting :
      BudgetInv db
      → q.billable ≡ true
      → is_transport_error e ≡ true
      → let st' = (attempt_once {Payload = Payload} config q attempt (raised e) st).1 in
        (st'.spent ≡ (if may_have_been_billed e then st.spent +ℤ q.cost else st.spent))
        × (after : BudgetDb) × (st'.ledger ≡ some after)
        × ((p : String) (d : ℕ)
            → counter p d after
              ≡ counter p d db
                + (if may_have_been_billed e
                      && (str_eq config.provider_name p && day_key q.now == d)
                    then estimated_cost q.cost
                    else 0))
  unfolding settle settle_failure client_release
  failure_accounting inv billable caught =
      let h = granted config.daily_budget id (reservation config q st) db db' inv grant in
      rw (granted_attempt billable) (
        rw caught (elim (Bool-cases (never_sent e)) [
          | inr billed ↦ rw billed (refl, db', refl, h.5)
          | inl free ↦ rw free (
            refl,
            release id db',
            refl,
            λ p d. omega (
              arith,
              release-reserve config.daily_budget id (reservation config q st) db db' p d inv grant,
            ),
          )
        ]))
