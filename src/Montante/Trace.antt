-- ===== src/Montante/Trace.antt =====
-- A challenge under any sequence of calls, also after some of them raised.
use betmaxxing.Prelude.{
  ℕ, String, ◌≡◌, refl, subst, List, [], ◌∷◌, arith, Result, ok, err, inl, inr, Bool-cases,
}
use betmaxxing.Prelude.Int.{ℤ}
use betmaxxing.Table.{select}
use betmaxxing.Montante.Defs.{
  MoneyFloats, ChallengeError, stopped, cancelled, StopReason, by_user, BetOutcome, ChallengeConfig,
  Candidate, Challenge, create, created, new_challenge, float_cents, waiting_for_candidate,
}
use betmaxxing.Montante.Moves.{activate, stop, cancel, propose, confirm, settle, is_state}
use betmaxxing.Montante.Pick.{propose_step, propose_best, admits}
use betmaxxing.Montante.Chain.{ChallengeInv, same-ChallengeInv}
use betmaxxing.Montante.Safety.{
  activate-ChallengeInv, propose-ChallengeInv, confirm-ChallengeInv, settle-ChallengeInv,
}

module _ (f : MoneyFloats) where
  pub data ChallengeCall : Type 0 where
    call_activate : ℕ → ChallengeCall
    call_propose : Candidate f → ℕ → ChallengeCall
    call_propose_step : List (Candidate f) → ℕ → ChallengeCall
    call_confirm : f.Float → ℕ → ℕ → ChallengeCall
    call_settle : BetOutcome → String → ℕ → ℕ → ChallengeCall
    call_stop : StopReason → ℕ → ChallengeCall
    call_cancel : String → ℕ → ChallengeCall

module _ {f : MoneyFloats} where
  unfoldable pub move : Challenge f → ChallengeCall f → Challenge f
  move c (call_activate now) = (activate now c).1
  move c (call_propose candidate now) = (propose candidate now c).1
  move c (call_propose_step candidates now) = (propose_step candidates now c).1
  move c (call_confirm odds at now) = (confirm odds at now c).1
  move c (call_settle outcome proof at now) = (settle outcome proof at now c).1
  move c (call_stop reason now) = stop reason now c
  move c (call_cancel reason now) = cancel reason now c

  unfoldable pub moves : Challenge f → List (ChallengeCall f) → Challenge f
  moves c [] = c
  moves c (x ∷ xs) = moves (move c x) xs

  propose_best-ChallengeInv :
      (initial : ℤ) (now : ℕ) (c : Challenge f) (candidates : List (Candidate f))
      → ChallengeInv initial c
      → ChallengeInv initial (propose_best now c candidates).1
  propose_best-ChallengeInv initial now c [] h = h
  propose_best-ChallengeInv initial now c (x ∷ xs) h = propose-ChallengeInv initial _ now c h

  propose_step-ChallengeInv :
      (initial : ℤ) (candidates : List (Candidate f)) (now : ℕ) (c : Challenge f)
      → ChallengeInv initial c
      → ChallengeInv initial (propose_step candidates now c).1
  unfolding propose_step
  propose_step-ChallengeInv initial candidates now c h =
      elim (Bool-cases (is_state c.state waiting_for_candidate)) [
        | inr e ↦ rw e h
        | inl e ↦
            rw e (propose_best-ChallengeInv initial now c (select (admits c.config) candidates) h)
      ]

  move-ChallengeInv :
      (initial : ℤ) (c : Challenge f) (x : ChallengeCall f)
      → ChallengeInv initial c
      → ChallengeInv initial (move c x)
  unfolding move stop cancel
  move-ChallengeInv initial c (call_activate now) h = activate-ChallengeInv initial now c h
  move-ChallengeInv initial c (call_propose candidate now) h =
      propose-ChallengeInv initial candidate now c h
  move-ChallengeInv initial c (call_propose_step candidates now) h =
      propose_step-ChallengeInv initial candidates now c h
  move-ChallengeInv initial c (call_confirm odds at now) h =
      confirm-ChallengeInv initial odds at now c h
  move-ChallengeInv initial c (call_settle outcome proof at now) h =
      settle-ChallengeInv initial outcome proof at now c h
  move-ChallengeInv initial c (call_stop reason now) h =
      same-ChallengeInv initial stopped reason now c h
  move-ChallengeInv initial c (call_cancel reason now) h =
      same-ChallengeInv initial cancelled (by_user reason) now c h

  pub moves-ChallengeInv :
      (initial : ℤ) (c : Challenge f) (calls : List (ChallengeCall f))
      → ChallengeInv initial c
      → ChallengeInv initial (moves c calls)
  unfolding moves
  moves-ChallengeInv initial c [] h = h
  moves-ChallengeInv initial c (x ∷ xs) h =
      moves-ChallengeInv initial (move c x) xs (move-ChallengeInv initial c x h)

  create-ChallengeInv :
      (config : ChallengeConfig f) (now : ℕ) (r : Result ChallengeError ℤ) (c : Challenge f)
      → created config now r ≡ ok c
      → ChallengeInv c.bank_cents c
  create-ChallengeInv config now (err e) c h = cc
  create-ChallengeInv config now (ok bank) c h =
      let same : new_challenge config now bank ≡ c = ground arith in
      subst (λ c. ChallengeInv c.bank_cents c) same
        (record { chain = refl; bounded = inl refl; staked = tt })

-- Whatever is called on a new challenge, errors included: its steps are numbered from 1, the first
-- starts from the initial bank, each later one and the bank from where the one before it left off, no
-- more steps are taken than are configured, those that end void, cancelled or postponed included, and
-- each stake is the configured fraction of the bank before its step, however the earlier steps ended.
pub challenge_accounts :
    {f : MoneyFloats} (config : ChallengeConfig f) (now : ℕ) (c : Challenge f)
    (calls : List (ChallengeCall f))
    → create config now ≡ ok c
    → ChallengeInv c.bank_cents (moves c calls)
unfolding create
challenge_accounts {f} config now c calls e =
    moves-ChallengeInv c.bank_cents c calls
      (create-ChallengeInv config now (float_cents f config.initial_bank) c e)
