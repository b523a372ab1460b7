-- ===== src/Client/Tests.antt =====
-- The client's theorems at concrete configurations and replies.
use betmaxxing.Prelude.{
  ℕ, ◌+◌, String, ◌≡◌, refl, ◌≢◌, true, ◌&&◌, none, some, [], ◌∷◌, arith, ok, err, str_eq, ◌==◌,
  ltb, if◌then◌else◌, Bool-cases, inl, inr,
}
use betmaxxing.Prelude.Int.{pos, ◌≤ℤ◌, ◌+ℤ◌}
use betmaxxing.Table.{scalar, row_count}
use betmaxxing.Budget.Defs.{BudgetDb, empty_budget, counter, reserve, day_key, estimated_cost}
use betmaxxing.Budget.Audit.{empty-BudgetInv, run, apply, call_reserve}
use betmaxxing.Client.Defs.{
  read_timeout, connect_error, ClientConfig, Request, ClientState, Reply, raised, answered,
  Response, no_quota, get, attempt_once, may_have_been_billed, parse_quota, reservation,
  out_of_fuel, ReadInt,
}
use betmaxxing.Client.Attempts.{get_ends}
use betmaxxing.Client.Spend.{HonestReply, get_within_budget, failure_accounting}

abbrev read_digit : ReadInt
read_digit s = if str_eq s "1" then some (pos 1) else none

abbrev config : ClientConfig
config = record {
  max_retries = 2;
  budget_per_scan = pos 3;
  provider_name = "the-odds-api";
  daily_budget = 50;
  read_int = read_digit;
}

abbrev odds : Request
odds = record { path = "/odds"; cost = pos 1; billable = true; now = 5 }

abbrev fresh_client : ClientState
fresh_client = record { spent = pos 0; quota = no_quota; ledger = some empty_budget }

abbrev response : ℕ → Response String
response status = record {
  status_code = status;
  headers = λ name. if str_eq name "x-requests-last" then some "1" else none;
  json = some "[]";
}

-- a read timeout, then a server error, then the odds
abbrev replies : ℕ → Reply String
replies n =
    if n == 1
    then raised read_timeout
    else if n == 2
    then answered (response 503)
    else answered (response 200)

-- the same for three requests
abbrev replies' : ℕ → Reply String
replies' n = if ltb n 4 then replies n else raised connect_error

get_ends_example :
    ((get config odds replies fresh_client).0 ≢ err out_of_fuel)
    × (get config odds replies fresh_client ≡ get config odds replies' fresh_client)
get_ends_example = get_ends config odds replies replies' fresh_client (λ n le. ground arith)

honest_response : (s : ℕ) → HonestReply config odds (answered (response s))
unfolding parse_quota
honest_response s c e = ground arith

honest_replies : (n : ℕ) → HonestReply config odds (replies n)
honest_replies n = elim (Bool-cases (n == 1)) [
  | inl e ↦ rw e tt
  | inr e ↦ elim (Bool-cases (n == 2)) [
    | inl two ↦ rw (e, two) (honest_response 503)
    | inr more ↦ rw (e, more) (honest_response 200)
  ]
]

get_within_budget_example : (get config odds replies fresh_client).1.spent ≤ℤ pos 3
get_within_budget_example =
    get_within_budget config odds replies fresh_client (omega arith) refl honest_replies
      (omega arith)

abbrev after_reserve : BudgetDb
after_reserve = run 50 empty_budget (call_reserve (reservation config odds fresh_client) ∷ [])

first_reserved :
    reserve 50 (reservation config odds fresh_client) empty_budget ≡ ok (1, after_reserve)
unfolding run apply reserve ◌+ℤ◌ row_count scalar day_key
first_reserved = refl

failure_accounting_example :
    let st' =
      (attempt_once {Payload = String} config odds 1 (raised read_timeout) fresh_client).1 in
    (st'.spent ≡ (
      if may_have_been_billed read_timeout
      then fresh_client.spent +ℤ pos 1
      else fresh_client.spent))
    × (after : BudgetDb) × (st'.ledger ≡ some after)
    × ((p : String) (d : ℕ)
        → counter p d after
          ≡ counter p d empty_budget
            + (if may_have_been_billed read_timeout && (str_eq "the-odds-api" p && day_key 5 == d)
                then estimated_cost (pos 1)
                else 0))
failure_accounting_example =
    failure_accounting String config odds 1 read_timeout fresh_client empty_budget after_reserve 1
      refl first_reserved empty-BudgetInv refl refl
