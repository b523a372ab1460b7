-- ===== src/Eligibility/Publication.antt =====
-- What a candidate that passed the gate is known to have.
use betmaxxing.Prelude.{◌≡◌, ◌≢◌, ◌⊎◌, true, false, not, none, arith, Bool-cases, inl, inr}
use betmaxxing.Eligibility.Gate.{
  Floats, RunMode, demo, backtest, paper, live_analysis, ValidationStatus, live_validated,
  synthetic, unavailable, GateInput, Thresholds, evaluate, is_publishable, is_demo,
  uncertainty_unavailable, model_not_validated,
}
use betmaxxing.Eligibility.Reasons.{evaluate_passes, bound_usable}

publishable_live :
    (status : ValidationStatus) (mode : RunMode)
    → not (is_publishable status mode) ≡ false
    → (mode ≢ live_analysis) ⊎ (status ≡ live_validated)
unfolding is_publishable
publishable_live status demo h = inl (λ e. cc)
publishable_live status backtest h = inl (λ e. cc)
publishable_live status paper h = inl (λ e. cc)
publishable_live status live_analysis h = inr (ground arith)

module _ {f : Floats} (c : GateInput f) (usable : not (bound_usable c) ≡ false) where
  bound_there : c.ev_conservative ≢ none
  bound_there = ground arith

  method_there : c.uncertainty_status ≢ unavailable
  method_there = ground arith

  method_real : (c.mode ≡ demo) ⊎ (c.uncertainty_status ≢ synthetic)
  method_real = elim (Bool-cases (is_demo c.mode)) [
    | inl e ↦ inl (ground arith)
    | inr e ↦ inr (ground arith)
  ]

-- A candidate that passes has a conservative EV from an uncertainty method that exists; outside the
-- demo mode that method is not synthetic, and in the live mode its model is validated for live use.
pub passed_is_publishable :
    {f : Floats} (c : GateInput f) (settings : Thresholds f)
    → (evaluate c settings).passed ≡ true
    → (c.ev_conservative ≢ none)
      × (c.uncertainty_status ≢ unavailable)
      × ((c.mode ≡ demo) ⊎ (c.uncertainty_status ≢ synthetic))
      × ((c.mode ≢ live_analysis) ⊎ (c.validation_status ≡ live_validated))
passed_is_publishable c settings passed =
    let clear = (evaluate_passes c settings).0 passed in
    (
      bound_there c (clear uncertainty_unavailable),
      method_there c (clear uncertainty_unavailable),
      method_real c (clear uncertainty_unavailable),
      publishable_live c.validation_status c.mode (clear model_not_validated),
    )
