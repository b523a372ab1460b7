-- ===== src/Normalize/BookKey.antt =====
-- The key of a book, `BookKey` of src/betmaxxing/ingestion/normalize.py, as equations: the test by which
-- prices are grouped holds exactly if they do.
use betmaxxing.Prelude.{
  ◌*◌, ◌^◌, ◌≡◌, refl, true, Option, none, some, arith, eq_iff, str_eq, str_eq_refl, sym, ap, ◌∙◌,
  String, if◌then◌else◌,
}
use betmaxxing.Normalize.Defs.{
  OddsSnapshot, MarketType, match_result_1x2, draw_no_bet, double_chance, total_goals, match_winner,
  player_wins_a_set, total_games, Period, full_time, first_half, Line,
}
use betmaxxing.Normalize.Books.{MarketBook, fits_book, same_line, market_text, period_text}

-- Two lines are one decimal, or both are absent.
abbrev pub SameLine : Option Line → Option Line → Type 0
SameLine none none = Unit
SameLine (some a) (some b) = a.digits * 10 ^ b.places ≡ b.digits * 10 ^ a.places
SameLine none (some b) = ⊥
SameLine (some a) none = ⊥

-- what tells books apart
pub record BookKey : Type 0 where
  pub event_internal_id : String
  pub bookmaker : String
  pub market : MarketType
  pub period : Period
  pub line : Option Line

abbrev pub snapshot_key : OddsSnapshot → BookKey
snapshot_key s = record {
  event_internal_id = s.event_internal_id;
  bookmaker = s.bookmaker;
  market = s.market;
  period = s.period;
  line = s.line;
}

abbrev pub book_key : MarketBook → BookKey
book_key b = record {
  event_internal_id = b.event_internal_id;
  bookmaker = b.bookmaker;
  market = b.market;
  period = b.period;
  line = b.line;
}

-- Two keys agree in event, bookmaker, market, period and line.
pub record SameKey (a b : BookKey) : Type 0 where
  pub event : a.event_internal_id ≡ b.event_internal_id
  pub bookmaker : a.bookmaker ≡ b.bookmaker
  pub market : a.market ≡ b.market
  pub period : a.period ≡ b.period
  pub line : SameLine a.line b.line

SameLine-sym : (a b : Option Line) → SameLine a b → SameLine b a
SameLine-sym none none h = tt
SameLine-sym none (some b) h = h
SameLine-sym (some a) none h = h
SameLine-sym (some a) (some b) h = sym h

pub SameKey-sym : (a b : BookKey) → SameKey a b → SameKey b a
SameKey-sym a b h = record {
  event = sym h.event;
  bookmaker = sym h.bookmaker;
  market = sym h.market;
  period = sym h.period;
  line = SameLine-sym a.line b.line h.line;
}

pub SameKey-refl : (a : BookKey) → SameKey a a
SameKey-refl a = record {
  event = refl;
  bookmaker = refl;
  market = refl;
  period = refl;
  line = own a.line;
}
  where
    own : (l : Option Line) → SameLine l l
    own none = tt
    own (some l) = refl

-- the market of a text, and the period, to read a key back
abbrev market_of : String → MarketType
market_of t =
    if str_eq t "1x2"
    then match_result_1x2
    else if str_eq t "draw_no_bet"
    then draw_no_bet
    else if str_eq t "double_chance"
    then double_chance
    else if str_eq t "total_goals"
    then total_goals
    else if str_eq t "match_winner"
    then match_winner
    else if str_eq t "player_wins_a_set"
    then player_wins_a_set
    else total_games

abbrev period_of : String → Period
period_of t = if str_eq t "full_time" then full_time else first_half

market_of-market_text : (m : MarketType) → market_of (market_text m) ≡ m
market_of-market_text match_result_1x2 = refl
market_of-market_text draw_no_bet = refl
market_of-market_text double_chance = refl
market_of-market_text total_goals = refl
market_of-market_text match_winner = refl
market_of-market_text player_wins_a_set = refl
market_of-market_text total_games = refl

period_of-period_text : (p : Period) → period_of (period_text p) ≡ p
period_of-period_text full_time = refl
period_of-period_text first_half = refl

market_text_injective : (a b : MarketType) → str_eq (market_text a) (market_text b) ≡ true → a ≡ b
market_text_injective a b h =
    sym (market_of-market_text a)
    ∙ ap market_of ((eq_iff (market_text a) (market_text b)).0 h)
    ∙ market_of-market_text b

period_text_injective : (a b : Period) → str_eq (period_text a) (period_text b) ≡ true → a ≡ b
period_text_injective a b h =
    sym (period_of-period_text a)
    ∙ ap period_of ((eq_iff (period_text a) (period_text b)).0 h)
    ∙ period_of-period_text b

same_line_sound : (a b : Option Line) → same_line a b ≡ true → SameLine a b
same_line_sound none none h = tt
same_line_sound none (some b) h = cc
same_line_sound (some a) none h = cc
same_line_sound (some a) (some b) h = ground (arith, h)

same_line_complete : (a b : Option Line) → SameLine a b → same_line a b ≡ true
same_line_complete none none h = refl
same_line_complete none (some b) h = absurd h
same_line_complete (some a) none h = absurd h
same_line_complete (some a) (some b) h = ground (arith, h)

pub fits_book-SameKey :
    (s : OddsSnapshot) (b : MarketBook)
    → fits_book s b ≡ true
    → SameKey (snapshot_key s) (book_key b)
fits_book-SameKey s b h = record {
  event = ground (arith, h, eq_iff s.event_internal_id b.event_internal_id);
  bookmaker = ground (arith, h, eq_iff s.bookmaker b.bookmaker);
  market = market_text_injective s.market b.market (ground (arith, h));
  period = period_text_injective s.period b.period (ground (arith, h));
  line = same_line_sound s.line b.line (ground (arith, h));
}

pub SameKey-fits_book :
    (s : OddsSnapshot) (b : MarketBook)
    → SameKey (snapshot_key s) (book_key b)
    → fits_book s b ≡ true
SameKey-fits_book s b h = ground (
  arith,
  (eq_iff s.event_internal_id b.event_internal_id).1 h.event,
  (eq_iff s.bookmaker b.bookmaker).1 h.bookmaker,
  same_market s.market b.market h.market,
  same_period s.period b.period h.period,
  same_line_complete s.line b.line h.line,
)
  where
    same_market : (m n : MarketType) → m ≡ n → str_eq (market_text m) (market_text n) ≡ true
    same_market m n e = rw e (str_eq_refl (market_text n))

    same_period : (m n : Period) → m ≡ n → str_eq (period_text m) (period_text n) ≡ true
    same_period m n e = rw e (str_eq_refl (period_text n))
