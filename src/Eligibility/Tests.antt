-- ===== src/Eligibility/Tests.antt =====
-- The gate's theorems at a concrete candidate; thousandths stand for the floats.
use betmaxxing.Prelude.{ℕ, ◌≡◌, refl, ◌≢◌, ◌⊎◌, true, false, some, none, ltb, leb}
use betmaxxing.Eligibility.Gate.{
  Floats, demo, live_analysis, live_validated, validated, unavailable, synthetic, GateInput,
  Thresholds, evaluate, gate_codes, is_publishable,
}
use betmaxxing.Eligibility.Publication.{passed_is_publishable}

abbrev thousandths : Floats
thousandths = record { Float = ℕ; lt = ltb; le = leb }

abbrev candidate : GateInput thousandths
candidate = record {
  ev = 40;
  ev_conservative = some 10;
  uncertainty_status = validated;
  probability_half_width = some 30;
  odds = 1850;
  odds_age_seconds = 60_000;
  data_quality = 900;
  market_complete = true;
  mapping_ambiguous = false;
  in_window = true;
  in_scope = true;
  event_scheduled = true;
  validation_status = live_validated;
  mode = live_analysis;
}

abbrev thresholds : Thresholds thousandths
thresholds = record {
  max_odds_age_seconds = 300_000;
  min_data_quality = 800;
  min_odds = 1300;
  max_odds = 5000;
  min_ev = 20;
  min_conservative_ev = 0;
  max_prob_half_width = 60;
}

abbrev old_candidate : GateInput thousandths
old_candidate = record candidate { odds_age_seconds = 400_000 }

candidate_passes : (evaluate candidate thresholds).passed ≡ true
unfolding evaluate is_publishable gate_codes
candidate_passes = refl

passed_is_publishable_example :
    (candidate.ev_conservative ≢ none)
    × (candidate.uncertainty_status ≢ unavailable)
    × ((candidate.mode ≡ demo) ⊎ (candidate.uncertainty_status ≢ synthetic))
    × ((candidate.mode ≢ live_analysis) ⊎ (candidate.validation_status ≡ live_validated))
passed_is_publishable_example = passed_is_publishable candidate thresholds candidate_passes
