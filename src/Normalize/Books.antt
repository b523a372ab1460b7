-- ===== src/Normalize/Books.antt =====
-- `latest_per_selection` and the second half of `assemble_books` of
-- src/betmaxxing/ingestion/normalize.py: one price per selection, grouped into books.
use Prim.Native.Nat.{Ordering}
use Prim.Native.String.{compare}
use betmaxxing.Prelude.{
  ℕ, ◌*◌, ◌^◌, String, Bool, true, false, ◌&&◌, Option, none, some, List, [], ◌∷◌, ◌++◌, map,
  str_eq, ltb, ◌==◌, if◌then◌else◌, sort_with, sort_by,
}
use betmaxxing.Normalize.Defs.{
  MarketType, match_result_1x2, draw_no_bet, double_chance, total_goals, match_winner,
  player_wins_a_set, total_games, Period, full_time, first_half, Line, OddsSnapshot, intake,
  QuarantineRecord,
}

-- the key of `best`
pub record PriceKey : Type 0 where
  pub bookmaker : String
  pub event_internal_id : String
  pub selection_key : String

abbrev pub price_key : OddsSnapshot → PriceKey
price_key s = record {
  bookmaker = s.bookmaker;
  event_internal_id = s.event_internal_id;
  selection_key = s.selection_key;
}

abbrev pub of_price : PriceKey → OddsSnapshot → Bool
of_price k s =
    str_eq s.bookmaker k.bookmaker
    && (str_eq s.event_internal_id k.event_internal_id && str_eq s.selection_key k.selection_key)

-- One round of the loop: the dictionary in the order of its keys' insertion.
unfoldable pub keep_latest : OddsSnapshot → List OddsSnapshot → List OddsSnapshot
keep_latest s [] = s ∷ []
keep_latest s (b ∷ best) =
    let rest = keep_latest s best in
    let current = if ltb b.observed_at s.observed_at then s else b in
    if of_price (price_key s) b then current ∷ best else b ∷ rest

unfoldable pub latest_after : List OddsSnapshot → List OddsSnapshot → List OddsSnapshot
unfolding keep_latest
latest_after best [] = best
latest_after best (s ∷ snapshots) = latest_after (keep_latest s best) snapshots

unfoldable pub latest_per_selection : List OddsSnapshot → List OddsSnapshot
unfolding latest_after
latest_per_selection snapshots = latest_after [] snapshots

abbrev pub market_text : MarketType → String
market_text match_result_1x2 = "1x2"
market_text draw_no_bet = "draw_no_bet"
market_text double_chance = "double_chance"
market_text total_goals = "total_goals"
market_text match_winner = "match_winner"
market_text player_wins_a_set = "player_wins_a_set"
market_text total_games = "total_games"

abbrev pub period_text : Period → String
period_text full_time = "full_time"
period_text first_half = "first_half"

pub record MarketBook : Type 0 where
  pub event_internal_id : String
  pub bookmaker : String
  pub market : MarketType
  pub period : Period
  pub line : Option Line
  pub snapshots : List OddsSnapshot

-- equality of two decimals, or of two absent ones
abbrev pub same_line : Option Line → Option Line → Bool
same_line none none = true
same_line (some a) (some b) = a.digits * 10 ^ b.places == b.digits * 10 ^ a.places
same_line _ _ = false

-- the snapshot's `BookKey` is the book's
abbrev pub fits_book : OddsSnapshot → MarketBook → Bool
fits_book s b =
    str_eq s.event_internal_id b.event_internal_id
    && (str_eq s.bookmaker b.bookmaker
        && (str_eq (market_text s.market) (market_text b.market)
            && (str_eq (period_text s.period) (period_text b.period) && same_line s.line b.line)))

abbrev pub new_book : OddsSnapshot → MarketBook
new_book s = record {
  event_internal_id = s.event_internal_id;
  bookmaker = s.bookmaker;
  market = s.market;
  period = s.period;
  line = s.line;
  snapshots = s ∷ [];
}

-- `grouped[key].append(snapshot)`
unfoldable pub add_to_book : OddsSnapshot → List MarketBook → List MarketBook
add_to_book s [] = new_book s ∷ []
add_to_book s (b ∷ books) =
    let rest = add_to_book s books in
    if fits_book s b then record b { snapshots = b.snapshots ++ s ∷ [] } ∷ books else b ∷ rest

unfoldable pub group_books : List MarketBook → List OddsSnapshot → List MarketBook
unfolding add_to_book
group_books books [] = books
group_books books (s ∷ snapshots) = group_books (add_to_book s books) snapshots

-- the order of tuples of texts
abbrev pub texts_leb : List String → List String → Bool
texts_leb [] ts = true
texts_leb (s ∷ ss) [] = false
texts_leb (s ∷ ss) (t ∷ ts) = elim (compare s t) [
  | Ordering.lt ↦ true
  | Ordering.gt ↦ false
  | Ordering.eq ↦ texts_leb ss ts
]

abbrev pub book_order : MarketBook → MarketBook → Bool
book_order a b =
    texts_leb (a.event_internal_id ∷ a.bookmaker ∷ market_text a.market ∷ period_text a.period ∷ [])
      (b.event_internal_id ∷ b.bookmaker ∷ market_text b.market ∷ period_text b.period ∷ [])

abbrev pub code_order : OddsSnapshot → OddsSnapshot → Bool
code_order s t = texts_leb (s.code ∷ []) (t.code ∷ [])

abbrev pub sorted_book : MarketBook → MarketBook
sorted_book b = record b { snapshots = sort_with code_order b.snapshots }

pub record NormalizationResult : Type 0 where
  pub books : List MarketBook
  pub duplicates_dropped : ℕ
  pub quarantined : List QuarantineRecord

-- `assemble_books`
unfoldable pub assemble_books : ℕ → List OddsSnapshot → NormalizationResult
unfolding latest_per_selection group_books intake
assemble_books now snapshots =
    let r = intake now snapshots in
    let grouped = group_books [] (latest_per_selection r.usable) in
    record {
      books = map sorted_book (sort_with book_order grouped);
      duplicates_dropped = r.duplicates_dropped;
      quarantined = r.quarantined;
    }

-- `odds_movement`: the snapshots that it renders, in the order of the trail
unfoldable pub odds_movement : List OddsSnapshot → List OddsSnapshot
odds_movement history = sort_by (λ s. s.observed_at) history
