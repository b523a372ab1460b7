-- ===== src/Client/Attempts.antt =====
-- The loop of `get` ends: the retries that are configured bound the requests.
use betmaxxing.Prelude.{
  ℕ, zero, suc, ◌+◌, ◌≤◌, ◌≡◌, refl, ◌≢◌, Option, arith, ◌⊎◌, inl, inr, Result, ok, err, ap, sym,
  ◌∙◌,
}
use betmaxxing.Budget.Defs.{BudgetExceeded}
use betmaxxing.Client.Defs.{
  ClientConfig, Request, ClientState, Reply, raised, answered, Response, QuotaInfo, GetError,
  out_of_fuel, Outcome, finished, retry, judge, settle, attempt_once, get_from, get,
  settle_reserved,
}

module _ {Payload : Type 0} (config : ClientConfig) (q : Request) (attempt : ℕ) where
  -- Only an attempt that is not the last asks for another one.
  judge-retry :
      (response : Response Payload) (quota : QuotaInfo)
      → judge config attempt response quota ≡ retry
      → attempt ≤ config.max_retries
  unfolding judge
  judge-retry response quota h = ground arith

  settle-retry :
      (id : Option ℕ) (reply : Reply Payload) (st : ClientState)
      → (settle config q attempt id reply st).0 ≡ retry
      → attempt ≤ config.max_retries
  unfolding settle
  settle-retry id (raised e) st h = ground arith
  settle-retry id (answered r) st h = judge-retry r _ h

  reserved-retry :
      (reply : Reply Payload) (st : ClientState)
      (r : Result BudgetExceeded (Option ℕ × ClientState))
      → (settle_reserved config q attempt reply st r).0 ≡ retry
      → attempt ≤ config.max_retries
  reserved-retry reply st (ok (id, st')) h = settle-retry id reply st' h
  reserved-retry reply st (err e) h = cc

  attempt-retry :
      (reply : Reply Payload) (st : ClientState)
      → (attempt_once config q attempt reply st).0 ≡ retry
      → attempt ≤ config.max_retries
  unfolding attempt_once
  attempt-retry reply st h = reserved-retry reply st _ h

  -- No attempt is short of fuel.
  judge-fuel :
      (response : Response Payload) (quota : QuotaInfo)
      → judge config attempt response quota ≢ finished (err out_of_fuel)
  unfolding judge
  judge-fuel response quota h = ground arith

  settle-fuel :
      (id : Option ℕ) (reply : Reply Payload) (st : ClientState)
      → (settle config q attempt id reply st).0 ≢ finished (err out_of_fuel)
  unfolding settle
  settle-fuel id (raised e) st h = ground arith
  settle-fuel id (answered r) st h = judge-fuel r _ h

  reserved-fuel :
      (reply : Reply Payload) (st : ClientState)
      (r : Result BudgetExceeded (Option ℕ × ClientState))
      → (settle_reserved config q attempt reply st r).0 ≢ finished (err out_of_fuel)
  reserved-fuel reply st (ok (id, st')) h = settle-fuel id reply st' h
  reserved-fuel reply st (err e) h = cc

  attempt-fuel :
      (reply : Reply Payload) (st : ClientState)
      → (attempt_once config q attempt reply st).0 ≢ finished (err out_of_fuel)
  unfolding attempt_once
  attempt-fuel reply st h = reserved-fuel reply st _ h

pub Outcome-cases :
    {Payload : Type 0} (o : Outcome Payload)
    → (o ≡ retry) ⊎ ((r : Result GetError (Payload × QuotaInfo)) × (o ≡ finished r))
Outcome-cases retry = inl refl
Outcome-cases (finished r) = inr (r, refl)

module _ {Payload : Type 0} (config : ClientConfig) (q : Request)
    (replies : ℕ → Reply Payload) where
  enough_fuel :
      (fuel attempt : ℕ) (st : ClientState)
      → attempt ≤ config.max_retries + 1
      → config.max_retries + 2 ≤ fuel + attempt
      → (get_from config q replies fuel attempt st).0 ≢ err out_of_fuel
  unfolding get_from
  enough_fuel zero attempt st le fuel = absurd (omega arith)
  enough_fuel (suc fuel) attempt st le more =
      elim (Outcome-cases (attempt_once config q attempt (replies attempt) st).0) [
        | inl e ↦
            let bound = attempt-retry config q attempt (replies attempt) st e in
            rw (e, get_from) (enough_fuel fuel (attempt + 1) _ (omega (arith, bound)) (omega arith))
        | inr (r, e) ↦
            rw (e, get_from) (λ h. attempt-fuel config q attempt (replies attempt) st (cc (e, h)))
      ]

  -- The loop reads no reply after that of its last attempt.
  same_replies :
      (replies' : ℕ → Reply Payload) (fuel attempt : ℕ) (st : ClientState)
      → ((n : ℕ) → n ≤ config.max_retries + 1 → replies n ≡ replies' n)
      → attempt ≤ config.max_retries + 1
      → get_from config q replies fuel attempt st ≡ get_from config q replies' fuel attempt st
  unfolding get_from
  same_replies replies' zero attempt st agree le = refl
  same_replies replies' (suc fuel) attempt st agree le =
      let same : attempt_once config q attempt (replies' attempt) st
          ≡ attempt_once config q attempt (replies attempt) st =
        ap (λ r. attempt_once config q attempt r st) (sym (agree attempt le)) in
      elim (Outcome-cases (attempt_once config q attempt (replies attempt) st).0) [
        | inl e ↦
            let bound = attempt-retry config q attempt (replies attempt) st e in
            rw (same, get_from)
              (rw (e, get_from)
                (same_replies replies' fuel (attempt + 1) _ agree (omega (arith, bound))
                  ∙ ap (λ r. get_from config q replies' fuel (attempt + 1) r.1) (sym same)))
        | inr (r, e) ↦ rw (same, get_from) (rw (e, get_from) (ap (λ x. (r, x.1)) (sym same)))
      ]

  -- `get` always returns or raises: the loop ends before its fuel does, and no reply after that to the
  -- last configured retry has any effect.
  pub get_ends :
      (replies' : ℕ → Reply Payload) (st : ClientState)
      → ((n : ℕ) → n ≤ config.max_retries + 1 → replies n ≡ replies' n)
      → ((get config q replies st).0 ≢ err out_of_fuel)
        × (get config q replies st ≡ get config q replies' st)
  unfolding get
  get_ends replies' st agree = (
    enough_fuel (config.max_retries + 1) 1 st (omega arith) (omega arith),
    same_replies replies' (config.max_retries + 1) 1 st agree (omega arith),
  )
