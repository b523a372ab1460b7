-- ===== src/Montante/Tests.antt =====
-- The challenge's theorems at a concrete run; thousandths stand for the floats.
use betmaxxing.Prelude.{
  ℕ, ◌*◌, ◌/◌, ◌≡◌, refl, true, false, none, some, List, [], ◌∷◌, ltb, leb, ok, err,
}
use betmaxxing.Prelude.Int.{pos, pos_part, ◌-ℤ◌}
use betmaxxing.Montante.Money.{to_cents}
use betmaxxing.Montante.Defs.{
  MoneyFloats, ChallengeConfig, Candidate, Step, Challenge, create, new_challenge, is_terminal,
  cannot_activate, cannot_propose, nothing_to_confirm, no_bet_awaiting, won, lost_bet, pending,
  awaiting_result, stopped, by_user,
}
use betmaxxing.Montante.Moves.{
  activate, propose, confirm, settle, settled, bank_after, apply_stop_rules,
}
use betmaxxing.Montante.Pick.{propose_step}
use betmaxxing.Montante.Chain.{ChallengeInv}
use betmaxxing.Montante.Trace.{
  ChallengeCall, call_activate, call_propose_step, call_confirm, call_settle, moves,
  challenge_accounts,
}
use betmaxxing.Montante.Final.{ended_refuses, loss_ends}

abbrev thousandths : MoneyFloats
thousandths = record {
  Float = ℕ;
  lt = ltb;
  le = leb;
  mul = λ a b. a * b / 1000;
  from_cents = λ n. pos_part n * 10;
  written = λ x. some (record { negative = false; digits = x; places = 3 });
  zero = 0;
  half = 500;
  one = 1000;
  neg_inf = 0;
}

abbrev config : ChallengeConfig thousandths
config = record {
  initial_bank = 100_000;
  target_bank = 200_000;
  allowed_sports = "tennis" ∷ [];
  allowed_markets = [];
  min_odds = 1200;
  max_odds = 3000;
  max_loss = 0;
  fraction_per_step = 250;
  acknowledged_total_loss_risk = false;
  stop_on_first_loss = true;
  max_steps = pos 20;
}

abbrev candidate : Candidate thousandths
candidate = record {
  candidate_id = "c1";
  sport = "tennis";
  market = "match_winner";
  event_label = "A - B";
  selection_label = "A";
  decimal_odds = 1800;
  conditional_win_probability = some 600;
  ev = 80;
  ev_conservative = some 20;
  risks = [];
}

abbrev challenge : Challenge thousandths
challenge = new_challenge config 0 (pos 10_000)

created_challenge : create config 0 ≡ ok challenge
unfolding create to_cents
created_challenge = refl

abbrev won_then_lost : List (ChallengeCall thousandths)
won_then_lost =
    call_activate 1
    ∷ call_propose_step (candidate ∷ []) 2
    ∷ call_confirm 1750 3 3
    ∷ call_settle won "score" 4 4
    ∷ call_propose_step (candidate ∷ []) 5
    ∷ call_confirm 1800 6 6
    ∷ call_settle lost_bet "score" 7 7
    ∷ []

challenge_accounts_example : ChallengeInv (pos 10_000) (moves challenge won_then_lost)
challenge_accounts_example = challenge_accounts config 0 challenge won_then_lost created_challenge

abbrev over : Challenge thousandths
over = record challenge { state = stopped; stop_reason = by_user "assez" }

over-is_terminal : is_terminal over ≡ true
unfolding is_terminal
over-is_terminal = refl

ended_refuses_example :
    (activate 9 over ≡ (err cannot_activate, over))
    × (propose candidate 9 over ≡ (err cannot_propose, over))
    × (propose_step (candidate ∷ []) 9 over ≡ (ok none, over))
    × (confirm 1800 9 9 over ≡ (err nothing_to_confirm, over))
    × (settle won "score" 9 9 over ≡ (err no_bet_awaiting, over))
ended_refuses_example =
    ended_refuses over candidate (candidate ∷ []) 1800 won "score" 9 9 over-is_terminal

abbrev bet : Step thousandths
bet = record {
  index = 1;
  bank_before_cents = pos 10_000;
  stake_cents = pos 2500;
  detected_odds = 1800;
  accepted_odds = some 1750;
  candidate_id = some "c1";
  event_label = "A - B";
  selection_label = "A";
  model_probability = some 600;
  ev = some 80;
  risks = [];
  outcome = pending;
  bank_after_cents = none;
  result_proof = "";
  proposed_at = some 3;
  settled_at = none;
}

abbrev awaiting : Challenge thousandths
awaiting = record challenge { state = awaiting_result; steps = bet ∷ [] }

loss_ends_example : is_terminal (settle lost_bet "score" 7 7 awaiting).1 ≡ true
unfolding settle bank_after apply_stop_rules to_cents ◌-ℤ◌
loss_ends_example =
    loss_ends lost_bet "score" 7 7 awaiting (settle lost_bet "score" 7 7 awaiting).1
      (settled lost_bet (pos 7500) "score" 7 bet) refl refl refl
