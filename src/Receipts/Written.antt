-- ===== src/Receipts/Written.antt =====
-- When the write loop of `publish_bytes` in src/betmaxxing/providers/the_odds_api/receipt_store.py ends
-- with everything written, it is everything.
use betmaxxing.Prelude.{
  ℕ, zero, suc, ◌+◌, ◌-◌, ◌≤◌, ◌≡◌, refl, Option, some, List, [], ◌∷◌, ◌∙◌, sym, ap, arith, min,
  leb, Bool-cases, Option-cases, inl, inr,
}
use betmaxxing.Receipts.Writing.{
  WriteAnswer, wrote, write_error, write_interrupted, WriteEnd, all_written, Writes, also, stop_at,
  took, after_answer, next_step, write_loop, WriteStep-cases, next_step-again, last_or,
}

next_step-done :
    (answer : WriteAnswer) (total written stalls : ℕ)
    → next_step answer total written stalls ≡ stop_at all_written
    → total ≤ written
next_step-done answer total written stalls e = elim (Bool-cases (leb total written)) [
  | inl done ↦ ground arith
  | inr more ↦ absurd (by_answer answer (rw (← e, more) refl))
]
  where
    by_take : (taken : ℕ) → took taken written stalls ≡ stop_at all_written → ⊥
    by_take zero h = ground arith
    by_take (suc more) h = cc

    by_answer : (a : WriteAnswer) → after_answer a total written stalls ≡ stop_at all_written → ⊥
    by_answer write_error h = cc
    by_answer write_interrupted h = cc
    by_answer (wrote progress) h = by_take (min progress (total - written)) h

abbrev stopped : WriteEnd → Option Writes
stopped end = some ([], end)

stopped-total :
    (answer : WriteAnswer) (total written stalls : ℕ) (end : WriteEnd) {visited : List ℕ}
    → written ≤ total
    → next_step answer total written stalls ≡ stop_at end
    → stopped end ≡ some (visited, all_written)
    → last_or written visited ≡ total
stopped-total answer total written stalls end {visited} small e h =
    let nothing : [] ≡ visited = cc in
    let done : end ≡ all_written = cc in
    let all = next_step-done answer total written stalls (e ∙ ap stop_at done) in
    ap (last_or written) (sym nothing) ∙ omega arith

-- When the loop ends with everything written, it is everything.
pub write_loop-total :
    (fuel : ℕ) (answers : ℕ → WriteAnswer) (n total written stalls : ℕ) {visited : List ℕ}
    → written ≤ total
    → write_loop fuel answers n total written stalls ≡ some (visited, all_written)
    → last_or written visited ≡ total
unfolding write_loop
write_loop-total zero answers n total written stalls {visited} small h =
    elim (WriteStep-cases (next_step (answers n) total written stalls)) [
      | inl (end, e) ↦
          stopped-total (answers n) total written stalls end {visited = visited} small e
            (rw (write_loop, e) at h)
      | inr (w, s, e) ↦ absurd (ground (arith, h, e))
    ]
write_loop-total (suc fuel) answers n total written stalls {visited} small h =
    elim (WriteStep-cases (next_step (answers n) total written stalls)) [
      | inl (end, e) ↦
          stopped-total (answers n) total written stalls end {visited = visited} small e
            (rw (write_loop, e) at h)
      | inr (w, s, e) ↦
          let less = next_step-again (answers n) total written stalls {w = w} {s = s} small e in
          let rest = write_loop fuel answers (n + 1) total w s in
          let told : also w rest ≡ some (visited, all_written) = rw (write_loop, e) at h in
          elim (Option-cases rest) [
            | inl over ↦ absurd (ground (arith, told, over))
            | inr ((more, end), found) ↦
                let same : (w ∷ more) ≡ visited = ground (arith, told, found) in
                let done : end ≡ all_written = ground (arith, told, found) in
                ap (last_or written) (sym same)
                ∙ write_loop-total fuel answers (n + 1) total w s {visited = more} less.1
                    (found ∙ ap (λ x. some (more, x)) done)
          ]
    ]
