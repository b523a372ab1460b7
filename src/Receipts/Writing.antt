-- ===== src/Receipts/Writing.antt =====
-- The loop of `publish_bytes` in src/betmaxxing/providers/the_odds_api/receipt_store.py that writes every
-- byte of the payload.
use betmaxxing.Prelude.{
  ℕ, zero, suc, ◌+◌, ◌-◌, ◌*◌, ◌≤◌, ◌≡◌, refl, Bool, true, false, Option, none, some, List, [], ◌∷◌,
  ◌∙◌, arith, min, leb, ltb, Bool-cases, inl, inr, ◌⊎◌, if◌then◌else◌,
}

-- `MAX_WRITE_STALLS`
abbrev pub max_write_stalls : ℕ
max_write_stalls = 3

-- What `os.write` answers: the bytes it took, of those it was offered; an OSError; or what ends the
-- program from outside.
pub data WriteAnswer : Type 0 where
  wrote : ℕ → WriteAnswer
  write_error write_interrupted : WriteAnswer

pub data WriteEnd : Type 0 where
  all_written write_stalled write_failed interrupted : WriteEnd

-- the bytes written after each call, and how the loop ends
abbrev pub Writes : Type 0
Writes = List ℕ × WriteEnd

abbrev pub also : ℕ → Option Writes → Option Writes
also written none = none
also written (some (visited, end)) = some (written ∷ visited, end)

-- what one pass of the loop decides: its end, or the bytes written and the stalls to go on with
pub data WriteStep : Type 0 where
  stop_at : WriteEnd → WriteStep
  again : ℕ → ℕ → WriteStep

-- after a call that took so many bytes
abbrev pub took : ℕ → ℕ → ℕ → WriteStep
took zero written stalls =
    if ltb max_write_stalls (stalls + 1) then stop_at write_stalled else again written (stalls + 1)
took (suc more) written stalls = again (written + suc more) 0

abbrev pub after_answer : WriteAnswer → ℕ → ℕ → ℕ → WriteStep
after_answer write_error total written stalls = stop_at write_failed
after_answer write_interrupted total written stalls = stop_at interrupted
after_answer (wrote progress) total written stalls =
    took (min progress (total - written)) written stalls

abbrev pub next_step : WriteAnswer → ℕ → ℕ → ℕ → WriteStep
next_step answer total written stalls =
    if leb total written then stop_at all_written else after_answer answer total written stalls

-- `total` bytes, `written` of them so far; the n-th call is answered by `answers n`.
unfoldable pub write_loop : ℕ → (ℕ → WriteAnswer) → ℕ → ℕ → ℕ → ℕ → Option Writes
write_loop zero answers n total written stalls = elim (next_step (answers n) total written stalls) [
  | stop_at end ↦ some ([], end)
  | again w s ↦ none
]
write_loop (suc fuel) answers n total written stalls =
    elim (next_step (answers n) total written stalls) [
      | stop_at end ↦ some ([], end)
      | again w s ↦ also w (write_loop fuel answers (n + 1) total w s)
    ]

-- enough for every byte, with the stalls that each may take
abbrev pub write_fuel : ℕ → ℕ
write_fuel total = total * (max_write_stalls + 1) + max_write_stalls

pub WriteStep-cases :
    (s : WriteStep) → ((end : WriteEnd) × (s ≡ stop_at end)) ⊎ ((w : ℕ) × (t : ℕ) × (s ≡ again w t))
WriteStep-cases (stop_at end) = inl (end, refl)
WriteStep-cases (again w t) = inr (w, t, refl)

-- How far the loop is from its end.
abbrev distance : ℕ → ℕ → ℕ → ℕ
distance total written stalls =
    (total - written) * (max_write_stalls + 1) + (max_write_stalls - stalls)

took-again :
    (taken total written stalls : ℕ) {w s : ℕ}
    → taken ≤ total - written
    → written ≤ total
    → took taken written stalls ≡ again w s
    → (suc (distance total w s) ≤ distance total written stalls) × (w ≤ total)
took-again zero total written stalls {w} {s} fits small e =
    elim (Bool-cases (ltb max_write_stalls (stalls + 1))) [
      | inl over ↦ absurd (ground (arith, e, over))
      | inr within ↦ (ground (arith, e, within), ground (arith, e, within))
    ]
took-again (suc more) total written stalls {w} {s} fits small e =
    (ground (arith, e), ground (arith, e))

after_answer-again :
    (answer : WriteAnswer) (total written stalls : ℕ) {w s : ℕ}
    → written ≤ total
    → after_answer answer total written stalls ≡ again w s
    → (suc (distance total w s) ≤ distance total written stalls) × (w ≤ total)
after_answer-again write_error total written stalls small e = cc
after_answer-again write_interrupted total written stalls small e = cc
after_answer-again (wrote progress) total written stalls {w} {s} small e =
    took-again (min progress (total - written)) total written stalls {w = w} {s = s} (omega arith)
      small e

pub next_step-again :
    (answer : WriteAnswer) (total written stalls : ℕ) {w s : ℕ}
    → written ≤ total
    → next_step answer total written stalls ≡ again w s
    → (suc (distance total w s) ≤ distance total written stalls) × (w ≤ total)
next_step-again answer total written stalls {w} {s} small e =
    elim (Bool-cases (leb total written)) [
      | inl done ↦ absurd (ground (arith, e, done))
      | inr more ↦
          after_answer-again answer total written stalls {w = w} {s = s} small (rw (← e, more) refl)
    ]

abbrev pub ended : Option Writes → Bool
ended none = false
ended (some w) = true

ended-also : (written : ℕ) (w : Option Writes) → ended (also written w) ≡ ended w
ended-also written none = refl
ended-also written (some w) = refl

ended_within :
    (fuel : ℕ) (answers : ℕ → WriteAnswer) (n total written stalls : ℕ)
    → written ≤ total
    → distance total written stalls ≤ fuel
    → ended (write_loop fuel answers n total written stalls) ≡ true
unfolding write_loop
ended_within zero answers n total written stalls small enough =
    elim (WriteStep-cases (next_step (answers n) total written stalls)) [
      | inl (end, e) ↦ rw (write_loop, e) refl
      | inr (w, s, e) ↦
          let less = next_step-again (answers n) total written stalls {w = w} {s = s} small e in
          absurd (omega (arith, less.0, enough))
    ]
ended_within (suc fuel) answers n total written stalls small enough =
    elim (WriteStep-cases (next_step (answers n) total written stalls)) [
      | inl (end, e) ↦ rw (write_loop, e) refl
      | inr (w, s, e) ↦
          let less = next_step-again (answers n) total written stalls {w = w} {s = s} small e in
          rw (write_loop, e)
            (ended-also w (write_loop fuel answers (n + 1) total w s)
              ∙ ended_within fuel answers (n + 1) total w s less.1 (omega (arith, less.0, enough)))
    ]

-- The write loop always ends: with the given fuel, whatever the operating system answers, and however
-- many writes take nothing, it writes every byte, gives up, or fails.
pub write_loop-ended :
    (answers : ℕ → WriteAnswer) (total : ℕ)
    → ended (write_loop (write_fuel total) answers 0 total 0 0) ≡ true
write_loop-ended answers total =
    ended_within (write_fuel total) answers 0 total 0 0 (omega arith) (omega arith)

-- the bytes that the temporary holds in the end
abbrev pub last_or : ℕ → List ℕ → ℕ
last_or written [] = written
last_or written (w ∷ visited) = last_or w visited
