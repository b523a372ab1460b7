-- ===== src/Client/Defs.antt =====
-- `TheOddsApiClient` of src/betmaxxing/providers/the_odds_api/client.py. What `httpx` answers to the
-- n-th request is an argument; sleeping between attempts changes no state and is left out.
use betmaxxing.Prelude.{
  ℕ, zero, suc, ◌+◌, ◌*◌, String, Bool, true, false, ◌||◌, Option, none, some, leb, ltb, ◌==◌,
  if◌then◌else◌, max, Result, ok, err,
}
use betmaxxing.Prelude.Int.{ℤ, pos_part, ◌+ℤ◌, ltb_ℤ}
use betmaxxing.Budget.Defs.{
  BudgetDb, BudgetExceeded, scan_budget_exceeded, Reservation, reserve, reconcile, release,
}

-- The exceptions that the client tells apart, by their names in `httpx`.
pub data HttpxError : Type 0 where
  connect_error connect_timeout pool_timeout local_protocol_error unsupported_protocol : HttpxError
  read_timeout write_timeout read_error write_error remote_protocol_error : HttpxError
  -- neither a timeout nor a transport error
  invalid_url : HttpxError

-- `NEVER_SENT`
abbrev pub never_sent : HttpxError → Bool
never_sent connect_error = true
never_sent connect_timeout = true
never_sent pool_timeout = true
never_sent local_protocol_error = true
never_sent unsupported_protocol = true
never_sent invalid_url = true
never_sent _ = false

-- `isinstance(error, httpx.TransportError)`, which a `httpx.TimeoutException` also is
abbrev pub is_transport_error : HttpxError → Bool
is_transport_error invalid_url = false
is_transport_error _ = true

unfoldable pub may_have_been_billed : HttpxError → Bool
may_have_been_billed error = if never_sent error then false else is_transport_error error

pub record QuotaInfo : Type 0 where
  pub remaining : Option ℤ
  pub used : Option ℤ
  pub last_cost : Option ℤ

abbrev pub no_quota : QuotaInfo
no_quota = record { remaining = none; used = none; last_cost = none }

-- Python's `int(text)`; `none` is its `ValueError`.
abbrev pub ReadInt : Type 0
ReadInt = String → Option ℤ

abbrev pub Headers : Type 0
Headers = String → Option String

abbrev pub header_int : ReadInt → Headers → String → Option ℤ
header_int read_int headers name = elim (headers name) [ none ↦ none | some raw ↦ read_int raw ]

unfoldable pub parse_quota : ReadInt → Headers → QuotaInfo
parse_quota read_int headers = record {
  remaining = header_int read_int headers "x-requests-remaining";
  used = header_int read_int headers "x-requests-used";
  last_cost = header_int read_int headers "x-requests-last";
}

unfoldable pub estimate_cost : ℤ → ℤ → ℕ
estimate_cost markets region_units = max 1 (pos_part markets) * max 1 (pos_part region_units)

module _ (Payload : Type 0) where
  -- `json` is `none` where `response.json()` raises.
  pub record Response : Type 0 where
    pub status_code : ℕ
    pub headers : Headers
    pub json : Option Payload

  pub data Reply : Type 0 where
    raised : HttpxError → Reply
    answered : Response → Reply

-- What `get` raises. An error after the last attempt remembers whether the provider may have billed.
pub data GetError : Type 0 where
  budget_exceeded : BudgetExceeded → GetError
  auth_error : GetError
  quota_exceeded : GetError
  api_error : Option Bool → GetError
  uncaught : HttpxError → GetError
  out_of_fuel : GetError

-- the arguments of `__init__`; `daily_budget` is the setting that the shared ledger reads
pub record ClientConfig : Type 0 where
  pub max_retries : ℕ
  pub budget_per_scan : ℤ
  pub provider_name : String
  pub daily_budget : ℕ
  pub read_int : ReadInt

-- one call of `get`
pub record Request : Type 0 where
  pub path : String
  pub cost : ℤ
  pub billable : Bool
  pub now : ℕ

-- `_spent`, `_quota` and the tables behind `_ledger`
pub record ClientState : Type 0 where
  pub spent : ℤ
  pub quota : QuotaInfo
  pub ledger : Option BudgetDb

-- `_check_budget`
abbrev pub over_budget : ClientConfig → ℤ → ClientState → Bool
over_budget config cost st = ltb_ℤ config.budget_per_scan (st.spent +ℤ cost)

abbrev pub reservation : ClientConfig → Request → ClientState → Reservation
reservation config q st = record {
  provider = config.provider_name;
  cost = q.cost;
  request = q.path;
  now = q.now;
  batch_id = none;
  scan_spent = st.spent;
  scan_budget = some config.budget_per_scan;
}

abbrev pub with_ledger : BudgetDb → ClientState → ClientState
with_ledger db st = record st { ledger = some db }

abbrev pub reserved :
    ClientState
    → Result BudgetExceeded (ℕ × BudgetDb)
    → Result BudgetExceeded (Option ℕ × ClientState)
reserved st (ok (id, db)) = ok (some id, with_ledger db st)
reserved st (err e) = err e

-- `_reserve`
unfoldable pub client_reserve :
    ClientConfig → Request → ClientState → Result BudgetExceeded (Option ℕ × ClientState)
client_reserve config q st = elim st.ledger [
  | none ↦ if over_budget config q.cost st then err scan_budget_exceeded else ok (none, st)
  | some db ↦ reserved st (reserve config.daily_budget (reservation config q st) db)
]

-- `_reconcile`
unfoldable pub client_reconcile : Option ℕ → Option ℤ → ClientState → ClientState
client_reconcile none observed st = st
client_reconcile (some id) observed st = elim st.ledger [
  | none ↦ st
  | some db ↦ with_ledger (reconcile id observed db) st
]

-- `_release`
unfoldable pub client_release : Option ℕ → ClientState → ClientState
client_release none st = st
client_release (some id) st = elim st.ledger [
  | none ↦ st
  | some db ↦ with_ledger (release id db) st
]

-- `_settle_failure`
unfoldable pub settle_failure : Option ℕ → HttpxError → ℤ → ClientState → ClientState
unfolding may_have_been_billed client_release
settle_failure reservation_id error cost st =
    if may_have_been_billed error
    then record st { spent = st.spent +ℤ cost }
    else client_release reservation_id st

abbrev pub or_cost : Option ℤ → ℤ → ℤ
or_cost none cost = cost
or_cost (some observed) cost = observed

-- the quota and the accounting of a response that arrived
unfoldable pub settle_response :
    ClientConfig → Request → Option ℕ → Headers → ClientState → ClientState
unfolding client_reconcile parse_quota
settle_response config q reservation_id headers st =
    let quota = parse_quota config.read_int headers in
    let seen = record st { quota = quota } in
    if q.billable
    then client_reconcile reservation_id quota.last_cost
        (record seen { spent = seen.spent +ℤ or_cost quota.last_cost q.cost })
    else seen

-- how one attempt ends
pub data Outcome (Payload : Type 0) : Type 0 where
  finished : Result GetError (Payload × QuotaInfo) → Outcome Payload
  retry : Outcome Payload

abbrev pub retryable_status : ℕ → Bool
retryable_status s = s == 429 || (s == 500 || (s == 502 || (s == 503 || s == 504)))

module _ {Payload : Type 0} where
  abbrev pub parsed : QuotaInfo → Option Payload → Outcome Payload
  parsed quota none = finished (err (api_error none))
  parsed quota (some payload) = finished (ok (payload, quota))

  -- the ladder of tests on the status
  unfoldable pub judge : ClientConfig → ℕ → Response Payload → QuotaInfo → Outcome Payload
  judge config attempt response quota =
      let last = ltb config.max_retries attempt in
      let status = response.status_code in
      if status == 401 || status == 403
      then finished (err auth_error)
      else if status == 429
      then (if last then finished (err quota_exceeded) else retry)
      else if retryable_status status
      then (if last then finished (err (api_error none)) else retry)
      else if status == 404
      then finished (err (api_error none))
      else if status == 422
      then finished (err (api_error none))
      else if leb 400 status
      then finished (err (api_error none))
      else parsed quota response.json

  -- what follows the request, under the reservation that was taken for it
  unfoldable pub settle :
      ClientConfig
      → Request
      → ℕ
      → Option ℕ
      → Reply Payload
      → ClientState
      → Outcome Payload × ClientState
  unfolding settle_failure settle_response judge
  settle config q attempt reservation_id (raised error) st =
      if is_transport_error error
      then (
        if ltb config.max_retries attempt
            then finished (err (api_error (some (may_have_been_billed error))))
            else retry,
        settle_failure reservation_id error q.cost st,
      )
      else (finished (err (uncaught error)), st)
  settle config q attempt reservation_id (answered response) st =
      let st' = settle_response config q reservation_id response.headers st in
      (judge config attempt response st'.quota, st')

  abbrev pub settle_reserved :
      ClientConfig
      → Request
      → ℕ
      → Reply Payload
      → ClientState
      → Result BudgetExceeded (Option ℕ × ClientState)
      → Outcome Payload × ClientState
  settle_reserved config q attempt reply st (ok (id, st')) = settle config q attempt id reply st'
  settle_reserved config q attempt reply st (err e) = (finished (err (budget_exceeded e)), st)

  -- one round of the loop of `get`
  unfoldable pub attempt_once :
      ClientConfig → Request → ℕ → Reply Payload → ClientState → Outcome Payload × ClientState
  unfolding client_reserve settle
  attempt_once config q attempt reply st =
      settle_reserved config q attempt reply st
        (if q.billable then client_reserve config q st else ok (none, st))

  -- `get`, from its `attempt`-th request on
  unfoldable pub get_from :
      ClientConfig
      → Request
      → (ℕ → Reply Payload)
      → ℕ
      → ℕ
      → ClientState
      → Result GetError (Payload × QuotaInfo) × ClientState
  unfolding attempt_once
  get_from config q replies zero attempt st = (err out_of_fuel, st)
  get_from config q replies (suc fuel) attempt st =
      let (outcome, st') = attempt_once config q attempt (replies attempt) st in
      elim outcome [
        | finished r ↦ (r, st')
        | retry ↦ get_from config q replies fuel (attempt + 1) st'
      ]

  -- `get`; one attempt, and as many retries as are configured, are enough fuel
  unfoldable pub get :
      ClientConfig
      → Request
      → (ℕ → Reply Payload)
      → ClientState
      → Result GetError (Payload × QuotaInfo) × ClientState
  unfolding get_from
  get config q replies st = get_from config q replies (config.max_retries + 1) 1 st
