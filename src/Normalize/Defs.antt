-- ===== src/Normalize/Defs.antt =====
-- `deduplicate`, `_validate` and the first half of `assemble_books` of
-- src/betmaxxing/ingestion/normalize.py.
use betmaxxing.Prelude.{
  ℕ, ◌+◌, ◌%◌, ◌^◌, String, Bool, true, false, ◌&&◌, ◌||◌, not, Option, none, some, List, [], ◌∷◌,
  str_eq, ltb, ◌==◌, if◌then◌else◌, length,
}

pub data Period : Type 0 where
  full_time first_half : Period

pub data MarketType : Type 0 where
  match_result_1x2 draw_no_bet double_chance total_goals : MarketType
  match_winner player_wins_a_set total_games : MarketType

-- A decimal line: its digits and the number of them after the point.
pub record Line : Type 0 where
  pub digits : ℕ
  pub places : ℕ

-- What `normalize.py` reads of an `OddsSnapshot`. Odds are read only by their test against
-- 1.0, `above_one`; `fingerprint` and `selection_key` are the properties of those names, on the
-- snapshot and on its selection.
pub record OddsSnapshot : Type 0 where
  pub fingerprint : String
  pub bookmaker : String
  pub event_internal_id : String
  pub selection_key : String
  pub period : Period
  pub market : MarketType
  pub line : Option Line
  pub code : String
  pub above_one : Bool
  pub observed_at : ℕ
  pub received_at : ℕ

abbrev pub is_in : String → List String → Bool
is_in s [] = false
is_in s (x ∷ xs) = str_eq x s || is_in s xs

-- The loop of `deduplicate`, after the fingerprints of `seen`.
unfoldable pub dedup_after : List String → List OddsSnapshot → List OddsSnapshot × ℕ
dedup_after seen [] = ([], 0)
dedup_after seen (s ∷ snapshots) =
    let again = is_in s.fingerprint seen in
    let (kept, dropped) = dedup_after (if again then seen else s.fingerprint ∷ seen) snapshots in
    if again then (kept, dropped + 1) else (s ∷ kept, dropped)

unfoldable pub deduplicate : List OddsSnapshot → List OddsSnapshot × ℕ
unfolding dedup_after
deduplicate snapshots = dedup_after [] snapshots

pub data Reason : Type 0 where
  invalid_odds observed_in_future received_before_observed missing_line integral_line : Reason

abbrev pub is_total : MarketType → Bool
is_total total_goals = true
is_total total_games = true
is_total _ = false

-- `line == line.to_integral_value()`
abbrev pub is_integral : Line → Bool
is_integral l = l.digits % 10 ^ l.places == 0

abbrev pub line_reason : Option Line → Option Reason
line_reason none = some missing_line
line_reason (some l) = if is_integral l then some integral_line else none

-- `_validate`
unfoldable pub validate : OddsSnapshot → ℕ → Option Reason
validate s now =
    if not s.above_one
    then some invalid_odds
    else if ltb now s.observed_at
    then some observed_in_future
    else if ltb s.received_at s.observed_at
    then some received_before_observed
    else if is_total s.market
    then line_reason s.line
    else none

pub record QuarantineRecord : Type 0 where
  pub snapshot : OddsSnapshot
  pub reason : Reason

abbrev pub sort_out :
    OddsSnapshot
    → Option Reason
    → List OddsSnapshot × List QuarantineRecord
    → List OddsSnapshot × List QuarantineRecord
sort_out s none (usable, quarantined) = (s ∷ usable, quarantined)
sort_out s (some reason) (usable, quarantined) =
    (usable, record { snapshot = s; reason = reason } ∷ quarantined)

-- the loop of `assemble_books` that fills `usable` and `quarantined`
unfoldable pub split_usable : ℕ → List OddsSnapshot → List OddsSnapshot × List QuarantineRecord
unfolding validate
split_usable now [] = ([], [])
split_usable now (s ∷ snapshots) = sort_out s (validate s now) (split_usable now snapshots)

-- what `assemble_books` groups, quarantines and counts as dropped
pub record Intake : Type 0 where
  pub usable : List OddsSnapshot
  pub quarantined : List QuarantineRecord
  pub duplicates_dropped : ℕ

unfoldable pub intake : ℕ → List OddsSnapshot → Intake
unfolding deduplicate split_usable
intake now snapshots =
    let (deduped, dropped) = deduplicate snapshots in
    let (usable, quarantined) = split_usable now deduped in
    record { usable = usable; quarantined = quarantined; duplicates_dropped = dropped }

-- `EXPECTED_SELECTION_COUNT`
abbrev pub expected_selection_count : MarketType → ℕ
expected_selection_count match_result_1x2 = 3
expected_selection_count double_chance = 3
expected_selection_count _ = 2

-- `{s.selection.code for s in book.snapshots}`
abbrev pub distinct_codes : List String → List OddsSnapshot → ℕ
distinct_codes seen [] = 0
distinct_codes seen (s ∷ snapshots) =
    let again = is_in s.code seen in
    let rest = distinct_codes (if again then seen else s.code ∷ seen) snapshots in
    if again then rest else rest + 1

unfoldable pub is_book_complete : MarketType → List OddsSnapshot → Bool
is_book_complete market snapshots =
    distinct_codes [] snapshots == expected_selection_count market
    && expected_selection_count market == length snapshots
