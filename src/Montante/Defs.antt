-- ===== src/Montante/Defs.antt =====
-- `ChallengeConfig`, `Step` and `Challenge` of src/betmaxxing/challenge/montante.py. Floats are a
-- parameter; the clock's reading is an argument.
use betmaxxing.Prelude.{
  ℕ, ◌/◌, String, Bool, true, false, ◌&&◌, ◌||◌, not, Option, none, some, List, [], ◌∷◌, str_eq,
  if◌then◌else◌, Result, ok, err,
}
use betmaxxing.Prelude.Int.{ℤ, pos, negsuc}
use betmaxxing.Montante.Money.{Decimal, to_cents}

-- What the module asks of floats: comparisons, a product, `cents / 100.0`, and `Decimal(str(x))`,
-- which is `none` where that is unreadable or not finite.
pub record MoneyFloats : Type 1 where
  pub Float : Type 0
  pub lt : Float → Float → Bool
  pub le : Float → Float → Bool
  pub mul : Float → Float → Float
  pub from_cents : ℤ → Float
  pub written : Float → Option Decimal
  pub zero : Float
  pub half : Float
  pub one : Float
  pub neg_inf : Float

pub data ChallengeState : Type 0 where
  draft active waiting_for_candidate awaiting_user_confirmation bet_recorded awaiting_result :
      ChallengeState
  target_reached stopped lost cancelled : ChallengeState

pub data BetOutcome : Type 0 where
  won lost_bet void half_won half_lost cancelled_bet postponed pending : BetOutcome

pub data Rejection : Type 0 where
  odds_outside sport_not_allowed market_not_allowed : Rejection

-- `ChallengeError`, by what it complains of; `no_step` is the `IndexError` of `steps[-1]`
pub data ChallengeError : Type 0 where
  cannot_activate cannot_propose max_steps_reached nothing_to_confirm accepted_odds_too_low :
      ChallengeError
  no_bet_awaiting pending_is_no_settlement unreadable_amount no_step invalid_config : ChallengeError
  rejected : Rejection → ChallengeError

-- `LOSING_OUTCOMES`
abbrev pub losing_outcomes : BetOutcome → Bool
losing_outcomes lost_bet = true
losing_outcomes half_lost = true
losing_outcomes _ = false

pub data StopReason : Type 0 where
  not_stopped target_is_reached max_loss_reached first_loss max_steps_done : StopReason
  by_user : String → StopReason

-- The rounding of a float to cents.
abbrev pub cents_of : Option Decimal → Result ChallengeError ℤ
cents_of none = err unreadable_amount
cents_of (some d) = ok (to_cents d)

-- `n // 2`
abbrev pub halved : ℤ → ℤ
halved (pos n) = pos (n / 2)
halved (negsuc n) = negsuc (n / 2)

abbrev pub is_terminal_state : ChallengeState → Bool
is_terminal_state target_reached = true
is_terminal_state stopped = true
is_terminal_state lost = true
is_terminal_state cancelled = true
is_terminal_state _ = false

abbrev pub is_in : String → List String → Bool
is_in s [] = false
is_in s (x ∷ xs) = str_eq s x || is_in s xs

abbrev pub allows : List String → String → Bool
allows [] s = true
allows (x ∷ xs) s = is_in s (x ∷ xs)

abbrev pub float_cents : (f : MoneyFloats) → f.Float → Result ChallengeError ℤ
float_cents f x = cents_of (f.written x)

module _ (f : MoneyFloats) where
  pub record ChallengeConfig : Type 0 where
    pub initial_bank : f.Float
    pub target_bank : f.Float
    pub allowed_sports : List String
    pub allowed_markets : List String
    pub min_odds : f.Float
    pub max_odds : f.Float
    pub max_loss : f.Float
    pub fraction_per_step : f.Float
    pub acknowledged_total_loss_risk : Bool
    pub stop_on_first_loss : Bool
    pub max_steps : ℤ

  -- what a challenge reads of a `Candidate`
  pub record Candidate : Type 0 where
    pub candidate_id : String
    pub sport : String
    pub market : String
    pub event_label : String
    pub selection_label : String
    pub decimal_odds : f.Float
    pub conditional_win_probability : Option f.Float
    pub ev : f.Float
    pub ev_conservative : Option f.Float
    pub risks : List String

  pub record Step : Type 0 where
    pub index : ℕ
    pub bank_before_cents : ℤ
    pub stake_cents : ℤ
    pub detected_odds : f.Float
    pub accepted_odds : Option f.Float
    pub candidate_id : Option String
    pub event_label : String
    pub selection_label : String
    pub model_probability : Option f.Float
    pub ev : Option f.Float
    pub risks : List String
    pub outcome : BetOutcome
    pub bank_after_cents : Option ℤ
    pub result_proof : String
    pub proposed_at : Option ℕ
    pub settled_at : Option ℕ

  pub record Challenge : Type 0 where
    pub config : ChallengeConfig
    pub state : ChallengeState
    pub bank_cents : ℤ
    pub steps : List Step
    pub updated_at : ℕ
    pub stop_reason : StopReason

module _ {f : MoneyFloats} where
  -- `__post_init__`
  unfoldable pub check_config : ChallengeConfig f → Result ChallengeError (ChallengeConfig f)
  check_config c =
      if f.le c.initial_bank f.zero
      then err invalid_config
      else if f.le c.target_bank c.initial_bank
      then err invalid_config
      else if not (f.lt f.zero c.fraction_per_step && f.le c.fraction_per_step f.one)
      then err invalid_config
      else if f.le c.min_odds f.one || f.le c.max_odds c.min_odds
      then err invalid_config
      else if f.lt c.max_loss f.zero || f.le c.initial_bank c.max_loss
      then err invalid_config
      else if f.lt f.half c.fraction_per_step && not c.acknowledged_total_loss_risk
      then err invalid_config
      else ok c

  abbrev pub new_challenge : ChallengeConfig f → ℕ → ℤ → Challenge f
  new_challenge config now bank = record {
    config = config;
    state = draft;
    bank_cents = bank;
    steps = [];
    updated_at = now;
    stop_reason = not_stopped;
  }

  abbrev pub created :
      ChallengeConfig f → ℕ → Result ChallengeError ℤ → Result ChallengeError (Challenge f)
  created config now (err e) = err e
  created config now (ok bank) = ok (new_challenge config now bank)

  -- `create`
  unfoldable pub create : ChallengeConfig f → ℕ → Result ChallengeError (Challenge f)
  create config now = created config now (float_cents f config.initial_bank)

  unfoldable pub is_terminal : Challenge f → Bool
  is_terminal c = is_terminal_state c.state

  unfoldable pub next_stake_cents : Challenge f → Result ChallengeError ℤ
  next_stake_cents c = float_cents f (f.mul (f.from_cents c.bank_cents) c.config.fraction_per_step)

  -- `_set_state`
  abbrev pub set_state : ChallengeState → ℕ → Challenge f → Challenge f
  set_state state now c = record c { state = state; updated_at = now }

  -- `rejects_candidate`; `none` lets the candidate through
  unfoldable pub rejects_candidate : ChallengeConfig f → Candidate f → Option Rejection
  rejects_candidate config c =
      if not (f.le config.min_odds c.decimal_odds && f.le c.decimal_odds config.max_odds)
      then some odds_outside
      else if not (allows config.allowed_sports c.sport)
      then some sport_not_allowed
      else if not (allows config.allowed_markets c.market)
      then some market_not_allowed
      else none
