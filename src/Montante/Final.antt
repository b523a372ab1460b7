-- ===== src/Montante/Final.antt =====
-- How a challenge ends.
use betmaxxing.Prelude.{
  ℕ, String, ◌≡◌, refl, subst, true, false, none, List, arith, Result, ok, err, Bool-cases,
  Option-cases, inl, inr,
}
use betmaxxing.Prelude.Int.{ℤ, leb_ℤ}
use betmaxxing.Montante.Defs.{
  MoneyFloats, ChallengeState, draft, waiting_for_candidate, awaiting_user_confirmation,
  awaiting_result, ChallengeError, cannot_activate, cannot_propose, nothing_to_confirm,
  no_bet_awaiting, BetOutcome, Candidate, Step, Challenge, is_terminal, is_terminal_state,
  losing_outcomes, float_cents,
}
use betmaxxing.Montante.Moves.{
  activate, propose, confirm, settle, is_state, is_pending, last_step, stop_rules, under_target,
  read_target, apply_stop_rules, returning, settle_step, bank_after, settled, set_last,
}
use betmaxxing.Montante.Pick.{propose_step}

module _ {f : MoneyFloats} (c : Challenge f) where
  not_in :
      (s : ChallengeState)
      → is_terminal_state c.state ≡ true
      → is_terminal_state s ≡ false
      → is_state c.state s ≡ false
  not_in s ended other = ground arith

-- A challenge that has reached its target, was lost, stopped or cancelled is over: it cannot be
-- activated, take a step, have one confirmed or settled; each attempt is refused and changes nothing.
pub ended_refuses :
    {f : MoneyFloats} (c : Challenge f) (candidate : Candidate f) (candidates : List (Candidate f))
    (odds : f.Float) (outcome : BetOutcome) (proof : String) (at now : ℕ)
    → is_terminal c ≡ true
    → (activate now c ≡ (err cannot_activate, c))
      × (propose candidate now c ≡ (err cannot_propose, c))
      × (propose_step candidates now c ≡ (ok none, c))
      × (confirm odds at now c ≡ (err nothing_to_confirm, c))
      × (settle outcome proof at now c ≡ (err no_bet_awaiting, c))
unfolding is_terminal activate propose propose_step confirm settle
ended_refuses c candidate candidates odds outcome proof at now ended = (
  rw (not_in c draft ended refl) refl,
  rw (not_in c waiting_for_candidate ended refl) refl,
  rw (not_in c waiting_for_candidate ended refl) refl,
  rw (not_in c awaiting_user_confirmation ended refl) refl,
  rw (not_in c awaiting_result ended refl) refl,
)

-- Where a call does not raise, the challenge is over.
abbrev Ends : {f : MoneyFloats} {A : Type 0} → Result ChallengeError A × Challenge f → Type 0
Ends (ok _, c) = is_terminal_state c.state ≡ true
Ends (err e, c) = Unit

module _ {f : MoneyFloats} (outcome : BetOutcome) (now : ℕ)
    (losing : losing_outcomes outcome ≡ true) where
  loss_rules :
      (c : Challenge f) (target max_loss : ℤ)
      → c.config.stop_on_first_loss ≡ true
      → is_terminal_state (stop_rules outcome now c target max_loss).state ≡ true
  loss_rules c target max_loss policy = elim (Bool-cases (leb_ℤ target c.bank_cents)) [
    | inl e ↦ rw e refl
    | inr e ↦ rw e (elim (Bool-cases (leb_ℤ c.bank_cents max_loss)) [
      | inl e ↦ rw e refl
      | inr e ↦ rw e (rw (losing, policy) refl)
    ])
  ]

  under_target-Ends :
      (c : Challenge f) (target : ℤ) (max_loss : Result ChallengeError ℤ)
      → c.config.stop_on_first_loss ≡ true
      → Ends (under_target outcome now c target max_loss)
  under_target-Ends c target (ok max_loss) policy = loss_rules c target max_loss policy
  under_target-Ends c target (err e) policy = elim (Bool-cases (leb_ℤ target c.bank_cents)) [
    | inl e ↦ rw e refl
    | inr e ↦ rw e tt
  ]

  read_target-Ends :
      (c : Challenge f) (target : Result ChallengeError ℤ)
      → c.config.stop_on_first_loss ≡ true
      → Ends (read_target outcome now c target)
  read_target-Ends c (err e) policy = tt
  read_target-Ends c (ok target) policy = under_target-Ends c target _ policy

  returning-Ends :
      (s : Step f) (r : Result ChallengeError (Unit {0}) × Challenge f)
      → Ends r
      → Ends (returning s r)
  returning-Ends s (ok _, c) h = h
  returning-Ends s (err e, c) h = tt

  settle_step-Ends :
      (proof : String) (at : ℕ) (c : Challenge f) (s : Step f) (r : Result ChallengeError ℤ)
      → c.config.stop_on_first_loss ≡ true
      → Ends (settle_step outcome proof at now c s r)
  unfolding apply_stop_rules
  settle_step-Ends proof at c s (err x) policy = tt
  settle_step-Ends proof at c s (ok bank) policy =
      let done = settled outcome bank proof at s in
      let c' = record c { steps = set_last done c.steps; bank_cents = bank } in
      returning-Ends done (apply_stop_rules outcome now c')
        (read_target-Ends c' (float_cents f c.config.target_bank) policy)

  settle-Ends :
      (proof : String) (at : ℕ) (c : Challenge f)
      → c.config.stop_on_first_loss ≡ true
      → Ends (settle outcome proof at now c)
  unfolding settle
  settle-Ends proof at c policy = elim (Bool-cases (is_state c.state awaiting_result)) [
    | inr e ↦ rw e tt
    | inl e ↦ rw e (elim (Bool-cases (is_pending outcome)) [
      | inl e ↦ rw e tt
      | inr e ↦ rw e (elim (Option-cases (last_step c.steps)) [
        | inl e ↦ rw e tt
        | inr (s, e) ↦ rw e (settle_step-Ends proof at c s (bank_after s outcome) policy)
      ])
    ])
  ]

-- No chasing of losses: under the default policy, a loss or half loss that is settled ends the
-- challenge.
pub loss_ends :
    {f : MoneyFloats} (outcome : BetOutcome) (proof : String) (at now : ℕ) (c c' : Challenge f)
    (s : Step f)
    → losing_outcomes outcome ≡ true
    → c.config.stop_on_first_loss ≡ true
    → settle outcome proof at now c ≡ (ok s, c')
    → is_terminal c' ≡ true
unfolding is_terminal
loss_ends outcome proof at now c c' s losing policy e =
    subst Ends e (settle-Ends outcome now losing proof at c policy)
