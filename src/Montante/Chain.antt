-- ===== src/Montante/Chain.antt =====
-- The invariant of a challenge: the chain of its steps, their number and their stakes.
use betmaxxing.Prelude.{
  ℕ, suc, ◌+◌, ◌≡◌, refl, ap, sym, subst, ◌∙◌, none, some, List, [], ◌∷◌, ◌++◌, arith, length, ok,
  ◌⊎◌, All,
}
use betmaxxing.Prelude.Int.{ℤ, pos, ◌≤ℤ◌}
use betmaxxing.Montante.Defs.{
  MoneyFloats, ChallengeState, StopReason, ChallengeConfig, Step, Challenge, float_cents,
}
use betmaxxing.Montante.Moves.{last_step, set_last}

module _ {f : MoneyFloats} where
  -- the bank after a step
  abbrev pub bank_of : Step f → ℤ
  bank_of s = elim s.bank_after_cents [ none ↦ s.bank_before_cents | some bank ↦ bank ]

  -- The steps are numbered from n + 1 on, and each starts from the bank that the one before it left.
  abbrev pub Chain : ℕ → ℤ → List (Step f) → ℤ → Type 0
  Chain n start [] bank = start ≡ bank
  Chain n start (s ∷ steps) bank =
      (s.index ≡ n + 1) × (s.bank_before_cents ≡ start) × Chain (n + 1) (bank_of s) steps bank

  -- A stake is the configured fraction of the bank before its step, whatever happened before.
  abbrev pub Staked : ChallengeConfig f → Step f → Type 0
  Staked config s =
      float_cents f (f.mul (f.from_cents s.bank_before_cents) config.fraction_per_step)
      ≡ ok s.stake_cents

  pub record ChallengeInv (initial : ℤ) (c : Challenge f) : Type 0 where
    pub chain : Chain 0 initial c.steps c.bank_cents
    pub bounded : (c.steps ≡ []) ⊎ (pos (length c.steps) ≤ℤ c.config.max_steps)
    pub staked : All (Staked c.config) c.steps

  pub Chain-append :
      (n : ℕ) (start : ℤ) (steps : List (Step f)) (bank : ℤ) (s : Step f)
      → Chain n start steps bank
      → s.index ≡ n + length steps + 1
      → s.bank_before_cents ≡ bank
      → Chain n start (steps ++ s ∷ []) (bank_of s)
  Chain-append n start [] bank s h i b = (omega (arith, i), b ∙ sym h, refl)
  Chain-append n start (x ∷ steps) bank s (xi, xb, h) i b =
      (xi, xb, Chain-append (n + 1) (bank_of x) steps bank s h (omega (arith, i)) b)

  pub Chain-set_last :
      (n : ℕ) (start : ℤ) (steps : List (Step f)) (bank : ℤ) (s s' : Step f)
      → Chain n start steps bank
      → last_step steps ≡ some s
      → s'.index ≡ s.index
      → s'.bank_before_cents ≡ s.bank_before_cents
      → Chain n start (set_last s' steps) (bank_of s')
  Chain-set_last n start [] bank s s' h e i b = cc
  Chain-set_last n start (x ∷ []) bank s s' (xi, xb, h) e i b =
      let same : x ≡ s = ground arith in
      (
        i ∙ ap (λ t. t.index) (sym same) ∙ xi,
        b ∙ ap (λ t. t.bank_before_cents) (sym same) ∙ xb,
        refl,
      )
  Chain-set_last n start (x ∷ y ∷ steps) bank s s' (xi, xb, h) e i b =
      (xi, xb, Chain-set_last (n + 1) (bank_of x) (y ∷ steps) bank s s' h e i b)

  -- the last step's bank is the challenge's
  pub Chain-last :
      (n : ℕ) (start : ℤ) (steps : List (Step f)) (bank : ℤ) (s : Step f)
      → Chain n start steps bank
      → last_step steps ≡ some s
      → bank_of s ≡ bank
  Chain-last n start [] bank s h e = cc
  Chain-last n start (x ∷ []) bank s (xi, xb, h) e =
      let same : x ≡ s = ground arith in ap bank_of (sym same) ∙ h
  Chain-last n start (x ∷ y ∷ steps) bank s (xi, xb, h) e =
      Chain-last (n + 1) (bank_of x) (y ∷ steps) bank s h e

  pub length-set_last :
      (s : Step f) (steps : List (Step f)) → length (set_last s steps) ≡ length steps
  length-set_last s [] = refl
  length-set_last s (x ∷ []) = refl
  length-set_last s (x ∷ y ∷ steps) = ap suc (length-set_last s (y ∷ steps))

  pub All-set_last :
      (P : Step f → Type 0) (s s' : Step f) (steps : List (Step f))
      → last_step steps ≡ some s
      → (P s → P s')
      → All P steps
      → All P (set_last s' steps)
  All-set_last P s s' [] e g h = tt
  All-set_last P s s' (x ∷ []) e g (px, h) =
      let same : x ≡ s = ground arith in (g (subst P same px), tt)
  All-set_last P s s' (x ∷ y ∷ steps) e g (px, h) = (px, All-set_last P s s' (y ∷ steps) e g h)

  -- The invariant reads neither the state, nor the stop reason, nor the clock.
  pub same-ChallengeInv :
      (initial : ℤ) (state : ChallengeState) (reason : StopReason) (now : ℕ) (c : Challenge f)
      → ChallengeInv initial c
      → ChallengeInv initial (record c { state = state; stop_reason = reason; updated_at = now })
  same-ChallengeInv initial state reason now c h = record {
    chain = h.chain;
    bounded = h.bounded;
    staked = h.staked;
  }
