-- ===== src/Eligibility/Gate.antt =====
-- `evaluate` of src/betmaxxing/engine/eligibility.py and `is_publishable` of
-- src/betmaxxing/models_ml/registry.py. Floats are a parameter, read by their comparisons alone; the
-- detail texts of a result, which render floats, are left out.
use betmaxxing.Prelude.{
  ℕ, Bool, true, false, ◌&&◌, not, Option, none, some, List, [], ◌∷◌, ◌++◌, leb, if◌then◌else◌,
}

-- Python's `<` and `<=` between floats (false with a NaN, as the type allows)
pub record Floats : Type 1 where
  pub Float : Type 0
  pub lt : Float → Float → Bool
  pub le : Float → Float → Bool

pub data RunMode : Type 0 where
  demo backtest paper live_analysis : RunMode

pub data ValidationStatus : Type 0 where
  backtest_only paper_validated live_validated : ValidationStatus

pub data UncertaintyStatus : Type 0 where
  synthetic unavailable estimated validated : UncertaintyStatus

-- the codes of `RejectionCode` that the gate gives
pub data RejectionCode : Type 0 where
  out_of_scope outside_window event_not_scheduled event_mapping_ambiguous market_incomplete :
      RejectionCode
  odds_stale low_data_quality odds_out_of_range ev_too_low uncertainty_unavailable : RejectionCode
  conservative_ev_negative uncertainty_too_high model_not_validated : RejectionCode

-- `REQUIRED_STATUS`
abbrev pub required_status : RunMode → Option ValidationStatus
required_status demo = none
required_status backtest = none
required_status paper = some backtest_only
required_status live_analysis = some live_validated

-- `_ORDER`
abbrev pub status_order : ValidationStatus → ℕ
status_order backtest_only = 0
status_order paper_validated = 1
status_order live_validated = 2

abbrev at_least : ValidationStatus → Option ValidationStatus → Bool
at_least status none = true
at_least status (some required) = leb (status_order required) (status_order status)

unfoldable pub is_publishable : ValidationStatus → RunMode → Bool
is_publishable status mode = at_least status (required_status mode)

abbrev pub is_demo : RunMode → Bool
is_demo demo = true
is_demo _ = false

module _ (f : Floats) where
  pub record GateInput : Type 0 where
    pub ev : f.Float
    pub ev_conservative : Option f.Float
    pub uncertainty_status : UncertaintyStatus
    pub probability_half_width : Option f.Float
    pub odds : f.Float
    pub odds_age_seconds : f.Float
    pub data_quality : f.Float
    pub market_complete : Bool
    pub mapping_ambiguous : Bool
    pub in_window : Bool
    pub in_scope : Bool
    pub event_scheduled : Bool
    pub validation_status : ValidationStatus
    pub mode : RunMode

  -- the thresholds of `Settings`
  pub record Thresholds : Type 0 where
    pub max_odds_age_seconds : f.Float
    pub min_data_quality : f.Float
    pub min_odds : f.Float
    pub max_odds : f.Float
    pub min_ev : f.Float
    pub min_conservative_ev : f.Float
    pub max_prob_half_width : f.Float

-- `if failed: fail(code, ...)`
abbrev pub fail_if : Bool → RejectionCode → List RejectionCode
fail_if failed code = if failed then code ∷ [] else []

pub record GateResult : Type 0 where
  pub passed : Bool
  pub codes : List RejectionCode

abbrev pub is_empty : List RejectionCode → Bool
is_empty [] = true
is_empty (_ ∷ _) = false

abbrev pub first_code : List RejectionCode → Option RejectionCode
first_code [] = none
first_code (code ∷ _) = some code

unfoldable pub primary_code : GateResult → Option RejectionCode
primary_code r = first_code r.codes

module _ {f : Floats} where
  abbrev pub too_wide : Thresholds f → Option f.Float → Bool
  too_wide settings none = false
  too_wide settings (some width) = f.lt settings.max_prob_half_width width

  -- the last branch of the uncertainty rules, and the one before it
  abbrev pub conservative_codes : Thresholds f → GateInput f → Option f.Float → List RejectionCode
  conservative_codes settings c none = uncertainty_unavailable ∷ []
  conservative_codes settings c (some bound) =
      fail_if (f.lt bound settings.min_conservative_ev) conservative_ev_negative
      ++ fail_if (too_wide settings c.probability_half_width) uncertainty_too_high

  abbrev pub uncertainty_codes : Thresholds f → GateInput f → UncertaintyStatus → List RejectionCode
  uncertainty_codes settings c unavailable = uncertainty_unavailable ∷ []
  uncertainty_codes settings c synthetic =
      if not (is_demo c.mode)
      then uncertainty_unavailable ∷ []
      else conservative_codes settings c c.ev_conservative
  uncertainty_codes settings c _ = conservative_codes settings c c.ev_conservative

  -- the codes in the order of the checks
  unfoldable pub gate_codes : GateInput f → Thresholds f → List RejectionCode
  unfolding is_publishable
  gate_codes c settings =
      fail_if (not c.in_scope) out_of_scope
      ++ fail_if (not c.in_window) outside_window
      ++ fail_if (not c.event_scheduled) event_not_scheduled
      ++ fail_if c.mapping_ambiguous event_mapping_ambiguous
      ++ fail_if (not c.market_complete) market_incomplete
      ++ fail_if (f.lt settings.max_odds_age_seconds c.odds_age_seconds) odds_stale
      ++ fail_if (f.lt c.data_quality settings.min_data_quality) low_data_quality
      ++ fail_if (not (f.le settings.min_odds c.odds && f.le c.odds settings.max_odds))
          odds_out_of_range
      ++ fail_if (f.lt c.ev settings.min_ev) ev_too_low
      ++ uncertainty_codes settings c c.uncertainty_status
      ++ fail_if (not (is_publishable c.validation_status c.mode)) model_not_validated

  unfoldable pub evaluate : GateInput f → Thresholds f → GateResult
  unfolding gate_codes
  evaluate c settings =
      let codes = gate_codes c settings in record { passed = is_empty codes; codes = codes }
