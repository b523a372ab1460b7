-- ===== src/Montante/Pick.antt =====
-- `propose_step` of src/betmaxxing/challenge/montante.py.
use betmaxxing.Prelude.{
  ℕ, Bool, true, false, not, Option, none, some, List, [], ◌∷◌, if◌then◌else◌, Result, ok, err,
}
use betmaxxing.Table.{select}
use betmaxxing.Montante.Defs.{
  MoneyFloats, waiting_for_candidate, ChallengeError, ChallengeConfig, Candidate, Step, Challenge,
  rejects_candidate, Rejection,
}
use betmaxxing.Montante.Moves.{is_state, propose}

abbrev is_none : Option Rejection → Bool
is_none none = true
is_none (some r) = false

module _ {f : MoneyFloats} where
  abbrev pub admits : ChallengeConfig f → Candidate f → Bool
  admits config c = is_none (rejects_candidate config c)

  -- the key of `max`
  abbrev pub rank_key : Candidate f → f.Float
  rank_key c = elim c.ev_conservative [ none ↦ f.neg_inf | some ev ↦ ev ]

  -- `max`: the first of the greatest
  abbrev pub best : Candidate f → List (Candidate f) → Candidate f
  best c [] = c
  best c (x ∷ xs) = best (if f.lt (rank_key c) (rank_key x) then x else c) xs

  abbrev pub propose_best :
      ℕ → Challenge f → List (Candidate f) → Result ChallengeError (Option (Step f)) × Challenge f
  propose_best now c [] = (ok none, c)
  propose_best now c (x ∷ xs) =
      let (r, c') = propose (best x xs) now c in
      (elim r [ ok step ↦ ok (some step) | err e ↦ err e ], c')

  unfoldable pub propose_step :
      List (Candidate f) → ℕ → Challenge f → Result ChallengeError (Option (Step f)) × Challenge f
  unfolding propose rejects_candidate
  propose_step candidates now c =
      if not (is_state c.state waiting_for_candidate)
      then (ok none, c)
      else propose_best now c (select (admits c.config) candidates)
