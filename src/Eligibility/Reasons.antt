-- ===== src/Eligibility/Reasons.antt =====
-- The gate gives every reason of a refusal, each one once, and passes exactly where there is none.
use betmaxxing.Prelude.{
  ℕ, ◌+◌, ◌≤◌, ◌≡◌, refl, ap, ◌∙◌, Bool, true, false, ◌&&◌, ◌||◌, not, Option, none, some, List, [],
  ◌∷◌, ◌++◌, arith, ◌==◌, if◌then◌else◌, ◌↔◌, inl, inr, Bool-cases,
}
use betmaxxing.Eligibility.Gate.{
  Floats, RejectionCode, out_of_scope, outside_window, event_not_scheduled, event_mapping_ambiguous,
  market_incomplete, odds_stale, low_data_quality, odds_out_of_range, ev_too_low,
  uncertainty_unavailable, conservative_ev_negative, uncertainty_too_high, model_not_validated,
  UncertaintyStatus, synthetic, unavailable, estimated, validated, GateInput, Thresholds, fail_if,
  too_wide, is_demo, uncertainty_codes, conservative_codes, gate_codes, is_publishable, evaluate,
  is_empty,
}

abbrev rank : RejectionCode → ℕ
rank out_of_scope = 0
rank outside_window = 1
rank event_not_scheduled = 2
rank event_mapping_ambiguous = 3
rank market_incomplete = 4
rank odds_stale = 5
rank low_data_quality = 6
rank odds_out_of_range = 7
rank ev_too_low = 8
rank uncertainty_unavailable = 9
rank conservative_ev_negative = 10
rank uncertainty_too_high = 11
rank model_not_validated = 12

-- how often a code is given
unfoldable pub count : RejectionCode → List RejectionCode → ℕ
count code [] = 0
count code (c ∷ codes) = (if rank c == rank code then 1 else 0) + count code codes

abbrev pub below : (f : Floats) → f.Float → Option f.Float → Bool
below f limit none = false
below f limit (some bound) = f.lt bound limit

abbrev pub has_bound : {F : Type 0} → Option F → Bool
has_bound none = false
has_bound (some _) = true

module _ {f : Floats} where
  -- whether a conservative bound may be used at all: there is one, from a method that the mode allows
  abbrev pub bound_usable : GateInput f → Bool
  bound_usable c = elim c.uncertainty_status [
    | unavailable ↦ false
    | synthetic ↦ is_demo c.mode && has_bound c.ev_conservative
    | estimated ↦ has_bound c.ev_conservative
    | validated ↦ has_bound c.ev_conservative
  ]

  -- the reason for each code, independently of the others and of the order of the checks
  abbrev pub reason : Thresholds f → GateInput f → RejectionCode → Bool
  reason settings c out_of_scope = not c.in_scope
  reason settings c outside_window = not c.in_window
  reason settings c event_not_scheduled = not c.event_scheduled
  reason settings c event_mapping_ambiguous = c.mapping_ambiguous
  reason settings c market_incomplete = not c.market_complete
  reason settings c odds_stale = f.lt settings.max_odds_age_seconds c.odds_age_seconds
  reason settings c low_data_quality = f.lt c.data_quality settings.min_data_quality
  reason settings c odds_out_of_range =
      not (f.le settings.min_odds c.odds) || not (f.le c.odds settings.max_odds)
  reason settings c ev_too_low = f.lt c.ev settings.min_ev
  reason settings c uncertainty_unavailable = not (bound_usable c)
  reason settings c conservative_ev_negative =
      bound_usable c && below f settings.min_conservative_ev c.ev_conservative
  reason settings c uncertainty_too_high =
      bound_usable c && too_wide settings c.probability_half_width
  reason settings c model_not_validated = not (is_publishable c.validation_status c.mode)

count-append :
    (code : RejectionCode) (xs ys : List RejectionCode)
    → count code (xs ++ ys) ≡ count code xs + count code ys
unfolding count
count-append code [] ys = omega arith
count-append code (c ∷ xs) ys = omega (arith, count-append code xs ys)

-- what a rule adds to the count of a code
abbrev hit : RejectionCode → RejectionCode → Bool → ℕ
hit code c failed = if rank c == rank code && failed then 1 else 0

count-fail_if :
    (code c : RejectionCode) (failed : Bool) → count code (fail_if failed c) ≡ hit code c failed
unfolding count
count-fail_if code c true = ground arith
count-fail_if code c false = ground arith

module _ {f : Floats} (settings : Thresholds f) (c : GateInput f) (code : RejectionCode) where
  count-conservative :
      (bound : Option f.Float)
      → count code (conservative_codes settings c bound)
        ≡ hit code uncertainty_unavailable (not (has_bound bound))
          + hit code conservative_ev_negative
              (has_bound bound && below f settings.min_conservative_ev bound)
          + hit code uncertainty_too_high
              (has_bound bound && too_wide settings c.probability_half_width)
  unfolding count
  count-conservative none = ground arith
  count-conservative (some bound) =
      let low = f.lt bound settings.min_conservative_ev in
      let wide = too_wide settings c.probability_half_width in
      rw
        (
          count-append code (fail_if low conservative_ev_negative)
              (fail_if wide uncertainty_too_high),
          count-fail_if code conservative_ev_negative low,
          count-fail_if code uncertainty_too_high wide,
        )
        (ground arith)

  -- the bound, where the rules let it be used
  count-uncertainty :
      count code (uncertainty_codes settings c c.uncertainty_status)
      ≡ hit code uncertainty_unavailable (not (bound_usable c))
        + hit code conservative_ev_negative
            (bound_usable c && below f settings.min_conservative_ev c.ev_conservative)
        + hit code uncertainty_too_high
            (bound_usable c && too_wide settings c.probability_half_width)
  unfolding count
  count-uncertainty = by_status c.uncertainty_status
    where
      by_status :
          (s : UncertaintyStatus)
          → let usable = bound_usable (record c { uncertainty_status = s }) in
            count code (uncertainty_codes settings c s)
            ≡ hit code uncertainty_unavailable (not usable)
              + hit code conservative_ev_negative
                  (usable && below f settings.min_conservative_ev c.ev_conservative)
              + hit code uncertainty_too_high (usable && too_wide settings c.probability_half_width)
      by_status unavailable = ground arith
      by_status synthetic = elim (Bool-cases (is_demo c.mode)) [
        | inl allowed ↦ rw allowed (count-conservative c.ev_conservative)
        | inr refused ↦ rw refused (ground arith)
      ]
      by_status estimated = count-conservative c.ev_conservative
      by_status validated = count-conservative c.ev_conservative

  -- what all the rules add to the count of the code
  abbrev hits : ℕ
  hits =
      hit code out_of_scope (not c.in_scope)
      + hit code outside_window (not c.in_window)
      + hit code event_not_scheduled (not c.event_scheduled)
      + hit code event_mapping_ambiguous c.mapping_ambiguous
      + hit code market_incomplete (not c.market_complete)
      + hit code odds_stale (f.lt settings.max_odds_age_seconds c.odds_age_seconds)
      + hit code low_data_quality (f.lt c.data_quality settings.min_data_quality)
      + hit code odds_out_of_range
          (not (f.le settings.min_odds c.odds && f.le c.odds settings.max_odds))
      + hit code ev_too_low (f.lt c.ev settings.min_ev)
      + (hit code uncertainty_unavailable (not (bound_usable c))
          + hit code conservative_ev_negative
              (bound_usable c && below f settings.min_conservative_ev c.ev_conservative)
          + hit code uncertainty_too_high
              (bound_usable c && too_wide settings c.probability_half_width))
      + hit code model_not_validated (not (is_publishable c.validation_status c.mode))

  count-gate_codes : count code (gate_codes c settings) ≡ hits
  unfolding gate_codes
  count-gate_codes = simp (count-append, count-fail_if, count-uncertainty) refl

-- A code is counted by its own rule alone.
hits-reason :
    {f : Floats} (c : GateInput f) (settings : Thresholds f) (code : RejectionCode)
    → hits settings c code ≡ (if reason settings c code then 1 else 0)
hits-reason c settings out_of_scope = ground arith
hits-reason c settings outside_window = ground arith
hits-reason c settings event_not_scheduled = ground arith
hits-reason c settings event_mapping_ambiguous = ground arith
hits-reason c settings market_incomplete = ground arith
hits-reason c settings odds_stale = ground arith
hits-reason c settings low_data_quality = ground arith
hits-reason c settings odds_out_of_range = ground arith
hits-reason c settings ev_too_low = ground arith
hits-reason c settings uncertainty_unavailable = ground arith
hits-reason c settings conservative_ev_negative = ground arith
hits-reason c settings uncertainty_too_high = ground arith
hits-reason c settings model_not_validated = ground arith

pub evaluate_reasons :
    {f : Floats} (c : GateInput f) (settings : Thresholds f) (code : RejectionCode)
    → count code (evaluate c settings).codes ≡ (if reason settings c code then 1 else 0)
unfolding evaluate
evaluate_reasons c settings code = count-gate_codes settings c code ∙ hits-reason c settings code

none_counted :
    (codes : List RejectionCode)
    → ((code : RejectionCode) → count code codes ≡ 0)
    → is_empty codes ≡ true
unfolding count
none_counted [] h = refl
none_counted (c ∷ codes) h = absurd (omega (arith, h c, counted c))
  where
    counted : (c : RejectionCode) → 1 ≤ (if rank c == rank c then 1 else 0)
    counted c = ground arith

empty_counts :
    (codes : List RejectionCode) (code : RejectionCode)
    → is_empty codes ≡ true
    → count code codes ≡ 0
unfolding count
empty_counts [] code e = refl
empty_counts (c ∷ codes) code e = cc

-- The gate is conjunctive: it passes a candidate exactly if no reason to refuse it holds.
pub evaluate_passes :
    {f : Floats} (c : GateInput f) (settings : Thresholds f)
    → ((evaluate c settings).passed ≡ true)
      ↔ ((code : RejectionCode) → reason settings c code ≡ false)
unfolding evaluate
evaluate_passes c settings = (
  (λ passed code.
      ground (
        arith,
        evaluate_reasons c settings code,
        empty_counts (gate_codes c settings) code passed,
      )),
  (λ clear.
      none_counted (gate_codes c settings)
        (λ code. evaluate_reasons c settings code ∙ ap (λ b. if b then 1 else 0) (clear code))),
)
