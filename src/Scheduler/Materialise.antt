-- ===== src/Scheduler/Materialise.antt =====
-- `JobLedger.materialise` of src/betmaxxing/scheduler/ledger.py: the occurrences that should exist.
use Prim.Native.Char.{Char, code}
use betmaxxing.Prelude.{
  ℕ, zero, suc, ◌+◌, ◌/◌, String, Bool, ◌||◌, Option, none, some, List, [], ◌∷◌, ◌++◌, map, str_eq,
  ltb, ◌==◌, if◌then◌else◌, Result, ok, err,
}
use betmaxxing.Prelude.Int.{ℤ, pos}
use betmaxxing.Names.Defs.{chars, of_chars}
use betmaxxing.Scheduler.Row.{daily_scan, event_milestone, Jobs, hours}
use betmaxxing.Scheduler.Enqueue.{Digest, enqueue}

-- Python's `int(text)`, `none` for its ValueError; and the instant of a local time of day in
-- `Europe/Paris`: `instant_at now k hour minute` is on the k-th local day counted from the eve of the
-- day of `now`, and `none` where `datetime(...)` raises.
pub record Calendar : Type 0 where
  pub read_int : String → Option ℤ
  pub instant_at : ℕ → ℕ → ℤ → ℤ → Option ℕ

abbrev before_first : Char → List Char × List Char → List Char × List Char
before_first c (first, rest) = (c ∷ first, rest)

-- `entry.partition(":")`, without the separator
unfoldable pub partition_colon : List Char → List Char × List Char
partition_colon [] = ([], [])
partition_colon (c ∷ cs) =
    let rest = partition_colon cs in if code c == 58 then ([], cs) else before_first c rest

-- `int(minute_str or 0)`
abbrev pub read_minute : Calendar → List Char → Option ℤ
read_minute cal [] = some (pos 0)
read_minute cal (c ∷ cs) = cal.read_int (of_chars (c ∷ cs))

-- what one pass of the inner loop does
pub data Planned : Type 0 where
  passed_over : Planned
  impossible_time : Planned
  planned_at : ℕ → Planned

-- `run_at < earliest or run_at > moment + horizon`
abbrev pub out_of_scope : ℕ → ℕ → ℕ → ℕ → Bool
out_of_scope now horizon grace run_at = ltb (run_at + grace) now || ltb (now + horizon) run_at

abbrev pub in_window : ℕ → ℕ → ℕ → Option ℕ → Planned
in_window now horizon grace none = impossible_time
in_window now horizon grace (some run_at) =
    if out_of_scope now horizon grace run_at then passed_over else planned_at run_at

abbrev pub read_time : Calendar → ℕ → ℕ → Option ℤ → Option ℤ → Option (Option ℕ)
read_time cal now k (some hour) (some minute) = some (cal.instant_at now k hour minute)
read_time cal now k _ _ = none

-- A malformed entry is passed over; one that reads as two numbers but is no time of day raises.
unfoldable pub plan_entry : Calendar → ℕ → ℕ → ℕ → ℕ → String → Planned
unfolding partition_colon
plan_entry cal now horizon grace k entry =
    let (hour_str, minute_str) = partition_colon (chars entry) in
    elim (read_time cal now k (cal.read_int (of_chars hour_str)) (read_minute cal minute_str)) [
      | none ↦ passed_over
      | some at ↦ in_window now horizon grace at
    ]

-- the pairs of the two loops, from day k on
unfoldable pub days_and_times : ℕ → ℕ → List String → List (ℕ × String)
days_and_times zero k times = []
days_and_times (suc n) k times = map (λ entry. (k, entry)) times ++ days_and_times n (suc k) times

-- the ValueError of an hour or a minute that does not exist
pub data ScanTimeError : Type 0 where
  no_such_time : ScanTimeError

-- the truth of what `enqueue` returns
abbrev pub one_if : Option String → ℕ
one_if none = 0
one_if (some id) = if str_eq id "" then 0 else 1

abbrev pub count_in : ℕ → Result ScanTimeError ℕ → Result ScanTimeError ℕ
count_in n (ok created) = ok (n + created)
count_in n (err e) = err e

-- the loops over the daily times: what an error leaves enqueued stays
unfoldable pub daily_pass :
    Digest → (ℕ → String → Planned) → ℕ → List (ℕ × String) → Jobs → Result ScanTimeError ℕ × Jobs
unfolding enqueue
daily_pass d plan now [] jobs = (ok 0, jobs)
daily_pass d plan now ((k, entry) ∷ rest) jobs = elim (plan k entry) [
  | passed_over ↦ daily_pass d plan now rest jobs
  | impossible_time ↦ (err no_such_time, jobs)
  | planned_at run_at ↦
      let (id, jobs') = enqueue d daily_scan run_at none now jobs in
      let (created, jobs'') = daily_pass d plan now rest jobs' in
      (count_in (one_if id) created, jobs'')
]

-- the loop over the milestones
unfoldable pub milestone_pass : Digest → (ℕ → Bool) → ℕ → List (String × ℕ) → Jobs → ℕ × Jobs
milestone_pass d out now [] jobs = (0, jobs)
milestone_pass d out now ((event_id, run_at) ∷ rest) jobs =
    let attempt =
      if out run_at
      then (none, jobs)
      else enqueue d event_milestone run_at (some event_id) now jobs in
    let (created, jobs'') = milestone_pass d out now rest attempt.1 in
    (one_if attempt.0 + created, jobs'')

-- the arguments of `materialise`
pub record Plan : Type 0 where
  pub now : ℕ
  pub daily_times : List String
  pub milestones : List (String × ℕ)
  pub horizon : ℕ
  pub catchup_grace : ℕ

abbrev pub then_milestones :
    Digest → Plan → Result ScanTimeError ℕ × Jobs → Result ScanTimeError ℕ × Jobs
then_milestones d plan (err e, jobs) = (err e, jobs)
then_milestones d plan (ok created, jobs) =
    let (more, jobs') =
      milestone_pass d (out_of_scope plan.now plan.horizon plan.catchup_grace) plan.now
        plan.milestones jobs in
    (ok (created + more), jobs')

-- `range(-1, int(horizon.days) + 1)`
abbrev pub days_of : Plan → List (ℕ × String)
days_of plan = days_and_times (plan.horizon / hours 24 + 2) 0 plan.daily_times

unfoldable pub materialise : Digest → Calendar → Plan → Jobs → Result ScanTimeError ℕ × Jobs
unfolding plan_entry days_and_times daily_pass milestone_pass
materialise d cal plan jobs = then_milestones d plan (
    daily_pass d (plan_entry cal plan.now plan.horizon plan.catchup_grace) plan.now (days_of plan)
      jobs)
