-- ===== src/Montante/Safety.antt =====
-- Each operation of a challenge keeps its invariant, whether it succeeds or raises.
use betmaxxing.Prelude.{
  ℕ, ◌+◌, String, ◌≡◌, refl, ap, subst, false, ◌&&◌, some, [], ◌∷◌, arith, length, Result, ok, err,
  Bool-cases, Option-cases, ◌⊎◌, All-append, length-append, inl, inr,
}
use betmaxxing.Prelude.Int.{ℤ, pos, ◌≤ℤ◌, leb_ℤ}
use betmaxxing.Montante.Defs.{
  MoneyFloats, ChallengeState, draft, waiting_for_candidate, awaiting_user_confirmation,
  awaiting_result, target_reached, stopped, lost, BetOutcome, ChallengeError, max_steps_done,
  Candidate, Step, Challenge, float_cents, losing_outcomes, next_stake_cents, rejects_candidate,
}
use betmaxxing.Montante.Moves.{
  last_step, set_last, activate, stop, new_step, with_stake, steps_done, propose, accept, confirm,
  settled, stop_rules, read_target, apply_stop_rules, returning, settle_step, settle, is_state,
  is_pending,
}
use betmaxxing.Montante.Chain.{
  Staked, ChallengeInv, bank_of, Chain-append, Chain-set_last, Chain-last, length-set_last,
  All-set_last, same-ChallengeInv,
}

module _ {f : MoneyFloats} where
  pub activate-ChallengeInv :
      (initial : ℤ) (now : ℕ) (c : Challenge f)
      → ChallengeInv initial c
      → ChallengeInv initial (activate now c).1
  unfolding activate
  activate-ChallengeInv initial now c h = elim (Bool-cases (is_state c.state draft)) [
    | inl e ↦ rw e (same-ChallengeInv initial waiting_for_candidate c.stop_reason now c h)
    | inr e ↦ rw e h
  ]

  -- A new step starts from the bank, where there is room for one more.
  with_stake-ChallengeInv :
      (initial : ℤ) (candidate : Candidate f) (now : ℕ) (c : Challenge f)
      (r : Result ChallengeError ℤ)
      → next_stake_cents c ≡ r
      → steps_done c ≡ false
      → ChallengeInv initial c
      → ChallengeInv initial (with_stake c candidate now r).1
  unfolding next_stake_cents
  with_stake-ChallengeInv initial candidate now c (err e) stake room h = h
  with_stake-ChallengeInv initial candidate now c (ok stake) is_stake room h = record {
    chain =
        Chain-append 0 initial c.steps c.bank_cents (new_step c candidate stake now) h.chain
          (omega arith) refl;
    bounded = inr (more (length-append c.steps (new_step c candidate stake now ∷ [])) room);
    staked =
        All-append (Staked c.config) c.steps (new_step c candidate stake now ∷ []) h.staked
          (is_stake, tt);
  }
    where
      more :
          {n : ℕ}
          → n ≡ length c.steps + 1
          → leb_ℤ c.config.max_steps (pos (length c.steps)) ≡ false
          → pos n ≤ℤ c.config.max_steps
      more e room = ground arith

  pub propose-ChallengeInv :
      (initial : ℤ) (candidate : Candidate f) (now : ℕ) (c : Challenge f)
      → ChallengeInv initial c
      → ChallengeInv initial (propose candidate now c).1
  unfolding propose stop
  propose-ChallengeInv initial candidate now c h =
      elim (Bool-cases (is_state c.state waiting_for_candidate)) [
        | inr e ↦ rw e h
        | inl e ↦ rw e (elim (Bool-cases (steps_done c)) [
          | inl full ↦ rw full (same-ChallengeInv initial stopped max_steps_done now c h)
          | inr room ↦ rw room (elim (Option-cases (rejects_candidate c.config candidate)) [
            | inr (reason, e) ↦ rw e h
            | inl e ↦
                rw e
                  (with_stake-ChallengeInv initial candidate now c (next_stake_cents c) refl room h)
          ])
        ])
      ]

  -- The last step is replaced by one with the same number, bank and stake.
  replace-ChallengeInv :
      (initial : ℤ) (state : ChallengeState) (now : ℕ) (c : Challenge f) (s s' : Step f)
      → last_step c.steps ≡ some s
      → (s'.index ≡ s.index)
        × (s'.bank_before_cents ≡ s.bank_before_cents)
        × (s'.stake_cents ≡ s.stake_cents)
      → ChallengeInv initial c
      → ChallengeInv initial (record c {
        steps = set_last s' c.steps;
        bank_cents = bank_of s';
        state = state;
        updated_at = now;
      })
  replace-ChallengeInv initial state now c s s' e (i, b, k) h = record {
    chain = Chain-set_last 0 initial c.steps c.bank_cents s s' h.chain e i b;
    bounded = kept h.bounded;
    staked = All-set_last (Staked c.config) s s' c.steps e (same_stake b k) h.staked;
  }
    where
      same_stake :
          s'.bank_before_cents ≡ s.bank_before_cents
          → s'.stake_cents ≡ s.stake_cents
          → Staked c.config s
          → Staked c.config s'
      same_stake b k h = rw (b, k) h

      kept :
          (c.steps ≡ []) ⊎ (pos (length c.steps) ≤ℤ c.config.max_steps)
          → (set_last s' c.steps ≡ []) ⊎ (pos (length (set_last s' c.steps)) ≤ℤ c.config.max_steps)
      kept (inl none_yet) = inl (ap (set_last s') none_yet)
      kept (inr le) = inr (rw (length-set_last s' c.steps) le)

  pub confirm-ChallengeInv :
      (initial : ℤ) (odds : f.Float) (at now : ℕ) (c : Challenge f)
      → ChallengeInv initial c
      → ChallengeInv initial (confirm odds at now c).1
  unfolding confirm
  confirm-ChallengeInv initial odds at now c h =
      elim (Bool-cases (is_state c.state awaiting_user_confirmation)) [
        | inr e ↦ rw e h
        | inl e ↦ rw e (elim (Bool-cases (f.le odds f.one)) [
          | inl low ↦ rw low h
          | inr fair ↦ rw fair (elim (Option-cases (last_step c.steps)) [
            | inl e ↦ rw e h
            | inr (s, e) ↦ rw e (
                subst
                  (λ bank. ChallengeInv initial (record c {
                    steps = set_last (accept odds at s) c.steps;
                    bank_cents = bank;
                    state = awaiting_result;
                    updated_at = now;
                  }))
                  (Chain-last 0 initial c.steps c.bank_cents s h.chain e)
                  (replace-ChallengeInv initial awaiting_result now c s (accept odds at s) e
                    (refl, refl, refl) h))
          ])
        ])
      ]

  stop_rules-ChallengeInv :
      (initial : ℤ) (outcome : BetOutcome) (now : ℕ) (c : Challenge f) (target max_loss : ℤ)
      → ChallengeInv initial c
      → ChallengeInv initial (stop_rules outcome now c target max_loss)
  stop_rules-ChallengeInv initial outcome now c target max_loss h =
      elim (Bool-cases (leb_ℤ target c.bank_cents)) [
        | inl e ↦ rw e (same-ChallengeInv initial target_reached _ now c h)
        | inr e ↦ rw e (elim (Bool-cases (leb_ℤ c.bank_cents max_loss)) [
          | inl e ↦ rw e (same-ChallengeInv initial lost _ now c h)
          | inr e ↦
              rw e (elim (Bool-cases (losing_outcomes outcome && c.config.stop_on_first_loss)) [
                | inl e ↦ rw e (same-ChallengeInv initial lost _ now c h)
                | inr e ↦ rw e (elim (Bool-cases (steps_done c)) [
                  | inl e ↦ rw e (same-ChallengeInv initial stopped _ now c h)
                  | inr e ↦ rw e (same-ChallengeInv initial waiting_for_candidate _ now c h)
                ])
              ])
        ])
      ]

  read_target-ChallengeInv :
      (initial : ℤ) (outcome : BetOutcome) (now : ℕ) (c : Challenge f)
      (target max_loss : Result ChallengeError ℤ)
      → float_cents f c.config.max_loss ≡ max_loss
      → ChallengeInv initial c
      → ChallengeInv initial (read_target outcome now c target).1
  read_target-ChallengeInv initial outcome now c (err e) max_loss m h = h
  read_target-ChallengeInv initial outcome now c (ok target) (ok max_loss) m h =
      rw m (stop_rules-ChallengeInv initial outcome now c target max_loss h)
  read_target-ChallengeInv initial outcome now c (ok target) (err e) m h =
      rw m (elim (Bool-cases (leb_ℤ target c.bank_cents)) [
        | inl e ↦ rw e (same-ChallengeInv initial target_reached _ now c h)
        | inr e ↦ rw e h
      ])

  returning_same :
      (s : Step f) (r : Result ChallengeError (Unit {0}) × Challenge f) → (returning s r).1 ≡ r.1
  returning_same s (ok _, c) = refl
  returning_same s (err e, c) = refl

  settle_step-ChallengeInv :
      (initial : ℤ) (outcome : BetOutcome) (proof : String) (at now : ℕ) (c : Challenge f)
      (s : Step f) (r : Result ChallengeError ℤ)
      → last_step c.steps ≡ some s
      → ChallengeInv initial c
      → ChallengeInv initial (settle_step outcome proof at now c s r).1
  unfolding apply_stop_rules
  settle_step-ChallengeInv initial outcome proof at now c s (err e) last h = h
  settle_step-ChallengeInv initial outcome proof at now c s (ok bank) last h =
      let done = settled outcome bank proof at s in
      rw (returning_same done _) (
        read_target-ChallengeInv initial outcome now _ _ (float_cents f c.config.max_loss) refl
          (replace-ChallengeInv initial c.state c.updated_at c s done last (refl, refl, refl) h))

  pub settle-ChallengeInv :
      (initial : ℤ) (outcome : BetOutcome) (proof : String) (at now : ℕ) (c : Challenge f)
      → ChallengeInv initial c
      → ChallengeInv initial (settle outcome proof at now c).1
  unfolding settle
  settle-ChallengeInv initial outcome proof at now c h =
      elim (Bool-cases (is_state c.state awaiting_result)) [
        | inr e ↦ rw e h
        | inl e ↦ rw e (elim (Bool-cases (is_pending outcome)) [
          | inl e ↦ rw e h
          | inr e ↦ rw e (elim (Option-cases (last_step c.steps)) [
            | inl e ↦ rw e h
            | inr (s, e) ↦ rw e (settle_step-ChallengeInv initial outcome proof at now c s _ e h)
          ])
        ])
      ]
