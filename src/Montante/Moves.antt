-- ===== src/Montante/Moves.antt =====
-- The transitions of `Challenge` in src/betmaxxing/challenge/montante.py. The aggregate is mutable, so
-- a call that raises also returns what it left of it. `now` is the clock's reading.
use betmaxxing.Prelude.{
  ℕ, ◌+◌, ◌==◌, String, Bool, true, false, ◌&&◌, not, Option, none, some, List, [], ◌∷◌, ◌++◌,
  if◌then◌else◌, length, Result, ok, err,
}
use betmaxxing.Prelude.Int.{ℤ, pos, ◌+ℤ◌, ◌-ℤ◌, leb_ℤ}
use betmaxxing.Montante.Defs.{
  MoneyFloats, ChallengeState, draft, waiting_for_candidate, awaiting_user_confirmation,
  awaiting_result, target_reached, stopped, lost, cancelled, BetOutcome, won, lost_bet, half_won,
  half_lost, pending, ChallengeError, cannot_activate, cannot_propose, max_steps_reached,
  nothing_to_confirm, accepted_odds_too_low, no_bet_awaiting, pending_is_no_settlement, no_step,
  rejected, losing_outcomes, StopReason, target_is_reached, max_loss_reached, first_loss,
  max_steps_done, by_user, halved, Candidate, Step, Challenge, float_cents, next_stake_cents,
  set_state, rejects_candidate,
}

-- `steps[-1]`
abbrev pub last_step : {A : Type 0} → List A → Option A
last_step [] = none
last_step (x ∷ []) = some x
last_step (x ∷ y ∷ ys) = last_step (y ∷ ys)

-- `steps[-1] = step`
abbrev pub set_last : {A : Type 0} → A → List A → List A
set_last a [] = []
set_last a (x ∷ []) = a ∷ []
set_last a (x ∷ y ∷ ys) = x ∷ set_last a (y ∷ ys)

abbrev state_no : ChallengeState → ℕ
state_no draft = 0
state_no ChallengeState.active = 1
state_no waiting_for_candidate = 2
state_no awaiting_user_confirmation = 3
state_no ChallengeState.bet_recorded = 4
state_no awaiting_result = 5
state_no target_reached = 6
state_no stopped = 7
state_no lost = 8
state_no cancelled = 9

abbrev pub is_state : ChallengeState → ChallengeState → Bool
is_state a b = state_no a == state_no b

abbrev pub is_pending : BetOutcome → Bool
is_pending pending = true
is_pending _ = false

-- `to_cents(from_cents(stake) * odds)`
abbrev pub payout : (f : MoneyFloats) → ℤ → f.Float → Result ChallengeError ℤ
payout f stake odds = float_cents f (f.mul (f.from_cents stake) odds)

abbrev pub added : ℤ → Result ChallengeError ℤ → Result ChallengeError ℤ
added base (err e) = err e
added base (ok paid) = ok (base +ℤ paid)

module _ {f : MoneyFloats} where
  unfoldable pub activate : ℕ → Challenge f → Result ChallengeError (Unit {0}) × Challenge f
  activate now c =
      if is_state c.state draft
      then (ok tt, set_state waiting_for_candidate now c)
      else (err cannot_activate, c)

  unfoldable pub stop : StopReason → ℕ → Challenge f → Challenge f
  stop reason now c = set_state stopped now (record c { stop_reason = reason })

  unfoldable pub cancel : String → ℕ → Challenge f → Challenge f
  cancel reason now c = set_state cancelled now (record c { stop_reason = by_user reason })

  abbrev pub new_step : Challenge f → Candidate f → ℤ → ℕ → Step f
  new_step c candidate stake now = record {
    index = length c.steps + 1;
    bank_before_cents = c.bank_cents;
    stake_cents = stake;
    detected_odds = candidate.decimal_odds;
    accepted_odds = none;
    candidate_id = some candidate.candidate_id;
    event_label = candidate.event_label;
    selection_label = candidate.selection_label;
    model_probability = candidate.conditional_win_probability;
    ev = some candidate.ev;
    risks = candidate.risks;
    outcome = pending;
    bank_after_cents = none;
    result_proof = "";
    proposed_at = some now;
    settled_at = none;
  }

  abbrev pub with_stake :
      Challenge f
      → Candidate f
      → ℕ
      → Result ChallengeError ℤ
      → Result ChallengeError (Step f) × Challenge f
  with_stake c candidate now (err e) = (err e, c)
  with_stake c candidate now (ok stake) =
      let step = new_step c candidate stake now in
      (
        ok step,
        set_state awaiting_user_confirmation now (record c { steps = c.steps ++ step ∷ [] }),
      )

  abbrev pub steps_done : Challenge f → Bool
  steps_done c = leb_ℤ c.config.max_steps (pos (length c.steps))

  unfoldable pub propose :
      Candidate f → ℕ → Challenge f → Result ChallengeError (Step f) × Challenge f
  unfolding stop rejects_candidate next_stake_cents
  propose candidate now c =
      if not (is_state c.state waiting_for_candidate)
      then (err cannot_propose, c)
      else if steps_done c
      then (err max_steps_reached, stop max_steps_done now c)
      else elim (rejects_candidate c.config candidate) [
        | some reason ↦ (err (rejected reason), c)
        | none ↦ with_stake c candidate now (next_stake_cents c)
      ]

  abbrev pub accept : f.Float → ℕ → Step f → Step f
  accept odds at s = record s { accepted_odds = some odds; proposed_at = some at }

  unfoldable pub confirm :
      f.Float → ℕ → ℕ → Challenge f → Result ChallengeError (Step f) × Challenge f
  confirm odds at now c =
      if not (is_state c.state awaiting_user_confirmation)
      then (err nothing_to_confirm, c)
      else if f.le odds f.one
      then (err accepted_odds_too_low, c)
      else elim (last_step c.steps) [
        | none ↦ (err no_step, c)
        | some step ↦ (
          ok (accept odds at step),
          set_state awaiting_result now
              (record c { steps = set_last (accept odds at step) c.steps }),
        )
      ]

  abbrev pub step_odds : Step f → f.Float
  step_odds s = elim s.accepted_odds [ none ↦ s.detected_odds | some odds ↦ odds ]

  -- `bank_after`
  unfoldable pub bank_after : Step f → BetOutcome → Result ChallengeError ℤ
  bank_after s won =
      added (s.bank_before_cents -ℤ s.stake_cents) (payout f s.stake_cents (step_odds s))
  bank_after s half_won =
      added (s.bank_before_cents -ℤ s.stake_cents +ℤ halved s.stake_cents)
        (payout f (halved s.stake_cents) (step_odds s))
  bank_after s lost_bet = ok (s.bank_before_cents -ℤ s.stake_cents)
  bank_after s half_lost =
      ok (s.bank_before_cents -ℤ s.stake_cents +ℤ (s.stake_cents -ℤ halved s.stake_cents))
  bank_after s _ = ok s.bank_before_cents

  abbrev pub settled : BetOutcome → ℤ → String → ℕ → Step f → Step f
  settled outcome bank proof at s = record s {
    outcome = outcome;
    bank_after_cents = some bank;
    result_proof = proof;
    settled_at = some at;
  }

  abbrev pub finish : ChallengeState → StopReason → ℕ → Challenge f → Challenge f
  finish state reason now c = set_state state now (record c { stop_reason = reason })

  -- the rules after the two amounts of the configuration are read
  abbrev pub stop_rules : BetOutcome → ℕ → Challenge f → ℤ → ℤ → Challenge f
  stop_rules outcome now c target max_loss =
      if leb_ℤ target c.bank_cents
      then finish target_reached target_is_reached now c
      else if leb_ℤ c.bank_cents max_loss
      then finish lost max_loss_reached now c
      else if losing_outcomes outcome && c.config.stop_on_first_loss
      then finish lost first_loss now c
      else if steps_done c
      then finish stopped max_steps_done now c
      else set_state waiting_for_candidate now c

  abbrev pub under_target :
      BetOutcome
      → ℕ
      → Challenge f
      → ℤ
      → Result ChallengeError ℤ
      → Result ChallengeError (Unit {0}) × Challenge f
  under_target outcome now c target (err e) =
      if leb_ℤ target c.bank_cents
      then (ok tt, finish target_reached target_is_reached now c)
      else (err e, c)
  under_target outcome now c target (ok max_loss) =
      (ok tt, stop_rules outcome now c target max_loss)

  abbrev pub read_target :
      BetOutcome
      → ℕ
      → Challenge f
      → Result ChallengeError ℤ
      → Result ChallengeError (Unit {0}) × Challenge f
  read_target outcome now c (err e) = (err e, c)
  read_target outcome now c (ok target) =
      under_target outcome now c target (float_cents f c.config.max_loss)

  -- `_apply_stop_rules`
  unfoldable pub apply_stop_rules :
      BetOutcome → ℕ → Challenge f → Result ChallengeError (Unit {0}) × Challenge f
  apply_stop_rules outcome now c = read_target outcome now c (float_cents f c.config.target_bank)

  abbrev pub returning :
      Step f
      → Result ChallengeError (Unit {0}) × Challenge f
      → Result ChallengeError (Step f) × Challenge f
  returning s (ok _, c) = (ok s, c)
  returning s (err e, c) = (err e, c)

  abbrev pub settle_step :
      BetOutcome
      → String
      → ℕ
      → ℕ
      → Challenge f
      → Step f
      → Result ChallengeError ℤ
      → Result ChallengeError (Step f) × Challenge f
  settle_step outcome proof at now c s (err e) = (err e, c)
  settle_step outcome proof at now c s (ok bank) =
      let done = settled outcome bank proof at s in
      returning done (
        apply_stop_rules outcome now
          (record c { steps = set_last done c.steps; bank_cents = bank }))

  unfoldable pub settle :
      BetOutcome → String → ℕ → ℕ → Challenge f → Result ChallengeError (Step f) × Challenge f
  unfolding bank_after apply_stop_rules
  settle outcome proof at now c =
      if not (is_state c.state awaiting_result)
      then (err no_bet_awaiting, c)
      else if is_pending outcome
      then (err pending_is_no_settlement, c)
      else elim (last_step c.steps) [
        | none ↦ (err no_step, c)
        | some s ↦ settle_step outcome proof at now c s (bank_after s outcome)
      ]
