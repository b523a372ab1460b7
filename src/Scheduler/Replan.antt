-- ===== src/Scheduler/Replan.antt =====
-- Planning is idempotent: an occurrence that a pass created is not created by another.
use betmaxxing.Prelude.{
  ℕ, ◌≡◌, refl, sym, ◌∙◌, ap, subst, String, Bool, true, Option, none, List, [], ◌∷◌, arith,
  Option-cases, inl, inr, Result, ok, err, str_eq_refl, ◌⊎◌,
}
use betmaxxing.Table.{scalar, scalar-append}
use betmaxxing.Scheduler.Row.{JobType, daily_scan, Jobs, by_id}
use betmaxxing.Scheduler.Enqueue.{
  Digest, enqueue, occurrence_id, pending_row, scope_text, same_occurrence, to_minute,
}
use betmaxxing.Scheduler.Moves.{JobsMove, stays, both, enqueue-JobsMove}
use betmaxxing.Scheduler.Final.{taken, move_taken}
use betmaxxing.Scheduler.Materialise.{
  Planned, passed_over, impossible_time, planned_at, ScanTimeError, one_if, count_in, daily_pass,
}

-- The occurrence of an `enqueue`, as `taken` reads it.
abbrev pub planned_taken : Digest → JobType → ℕ → Option String → Jobs → Bool
planned_taken d job_type at scope jobs =
    taken (occurrence_id d job_type (to_minute at) (scope_text scope)) job_type (to_minute at)
      (scope_text scope) jobs

-- A taken occurrence is declined, and the table stays.
pub enqueue-taken :
    (d : Digest) (job_type : JobType) (at : ℕ) (scope : Option String) (now : ℕ) (jobs : Jobs)
    → planned_taken d job_type at scope jobs ≡ true
    → enqueue d job_type at scope now jobs ≡ (none, jobs)
unfolding enqueue
enqueue-taken d job_type at scope now jobs h =
    let id = occurrence_id d job_type (to_minute at) (scope_text scope) in
    elim (Option-cases (scalar (by_id id) jobs)) [
      | inr (r, e) ↦ rw e refl
      | inl no_id ↦
          elim (Option-cases
            (scalar (same_occurrence job_type (to_minute at) (scope_text scope)) jobs)) [
              | inr (r, e) ↦ rw (no_id, e) refl
              | inl no_key ↦ absurd (ground (arith, h, no_id, no_key))
            ]
    ]

-- After an `enqueue` its occurrence is taken, whether it was added or was there.
pub enqueue_takes :
    (d : Digest) (job_type : JobType) (at : ℕ) (scope : Option String) (now : ℕ) (jobs : Jobs)
    → planned_taken d job_type at scope (enqueue d job_type at scope now jobs).1 ≡ true
unfolding enqueue
enqueue_takes d job_type at scope now jobs =
    let id = occurrence_id d job_type (to_minute at) (scope_text scope) in
    elim (Option-cases (scalar (by_id id) jobs)) [
      | inr (r, e) ↦ rw (e, e) refl
      | inl no_id ↦
          elim (Option-cases
            (scalar (same_occurrence job_type (to_minute at) (scope_text scope)) jobs)) [
              | inr (r, e) ↦ rw (no_id, e, no_id, e) refl
              | inl no_key ↦
                  let row = pending_row id job_type (to_minute at) (scope_text scope) now in
                  rw (no_id, no_key, scalar-append (by_id id) jobs (row ∷ []), no_id)
                    (unfold scalar in rw (str_eq_refl id) refl)
            ]
    ]

pub Planned-cases :
    (p : Planned) → (p ≡ passed_over) ⊎ ((p ≡ impossible_time) ⊎ ((at : ℕ) × (p ≡ planned_at at)))
Planned-cases passed_over = inl refl
Planned-cases impossible_time = inr (inl refl)
Planned-cases (planned_at at) = inr (inr (at, refl))

module _ (d : Digest) (plan : ℕ → String → Planned) (now k : ℕ) (entry : String)
    (os : List (ℕ × String)) (jobs : Jobs) where
  pub pass_over :
      plan k entry ≡ passed_over
      → daily_pass d plan now ((k, entry) ∷ os) jobs ≡ daily_pass d plan now os jobs
  unfolding daily_pass
  pass_over e = rw (daily_pass, e) refl

  pub pass_stop :
      plan k entry ≡ impossible_time
      → daily_pass d plan now ((k, entry) ∷ os) jobs ≡ (err ScanTimeError.no_such_time, jobs)
  unfolding daily_pass
  pass_stop e = rw (daily_pass, e) refl

  pub pass_make :
      (at : ℕ)
      → plan k entry ≡ planned_at at
      → let made = enqueue d daily_scan at none now jobs in
        let rest = daily_pass d plan now os made.1 in
        daily_pass d plan now ((k, entry) ∷ os) jobs ≡ (count_in (one_if made.0) rest.0, rest.1)
  unfolding daily_pass
  pass_make at e = rw (daily_pass, e) refl

pub daily_pass-JobsMove :
    (d : Digest) (plan : ℕ → String → Planned) (now : ℕ) (os : List (ℕ × String)) (jobs : Jobs)
    → JobsMove jobs (daily_pass d plan now os jobs).1
unfolding daily_pass
daily_pass-JobsMove d plan now [] jobs = stays jobs
daily_pass-JobsMove d plan now ((k, entry) ∷ os) jobs = elim (Planned-cases (plan k entry)) [
  | inl e ↦
      subst (λ x. JobsMove jobs x.1) (sym (pass_over d plan now k entry os jobs e))
        (daily_pass-JobsMove d plan now os jobs)
  | inr (inl e) ↦
      subst (λ x. JobsMove jobs x.1) (sym (pass_stop d plan now k entry os jobs e)) (stays jobs)
  | inr (inr (at, e)) ↦
      subst (λ x. JobsMove jobs x.1) (sym (pass_make d plan now k entry os jobs at e))
        (both jobs _ _ (enqueue-JobsMove d daily_scan at none now jobs)
          (daily_pass-JobsMove d plan now os (enqueue d daily_scan at none now jobs).1))
]

-- what a pass that finds everything there reports
abbrev pub nothing_new : Result ScanTimeError ℕ → Result ScanTimeError ℕ
nothing_new (ok created) = ok 0
nothing_new (err e) = err e

count_nothing :
    (n : ℕ) (r : Result ScanTimeError ℕ) → count_in 0 (nothing_new r) ≡ nothing_new (count_in n r)
count_nothing n (ok created) = refl
count_nothing n (err e) = refl

pub daily_pass_again :
    (d : Digest) (plan : ℕ → String → Planned) (now : ℕ) (os : List (ℕ × String))
    (jobs later : Jobs)
    → JobsMove (daily_pass d plan now os jobs).1 later
    → daily_pass d plan now os later ≡ (nothing_new (daily_pass d plan now os jobs).0, later)
unfolding daily_pass
daily_pass_again d plan now [] jobs later move = refl
daily_pass_again d plan now ((k, entry) ∷ os) jobs later move =
    elim (Planned-cases (plan k entry)) [
      | inl e ↦
          let first = pass_over d plan now k entry os jobs e in
          pass_over d plan now k entry os later e
          ∙ daily_pass_again d plan now os jobs later (subst (λ x. JobsMove x.1 later) first move)
          ∙ ap (λ x. (nothing_new x.0, later)) (sym first)
      | inr (inl e) ↦
          pass_stop d plan now k entry os later e
          ∙ ap (λ x. (nothing_new x.0, later)) (sym (pass_stop d plan now k entry os jobs e))
      | inr (inr (at, e)) ↦
          let made = enqueue d daily_scan at none now jobs in
          let rest = daily_pass d plan now os made.1 in
          let first = pass_make d plan now k entry os jobs at e in
          let move' = subst (λ x. JobsMove x.1 later) first move in
          let there =
            move_taken _ daily_scan _ _ made.1 later
              (both made.1 rest.1 later (daily_pass-JobsMove d plan now os made.1) move')
              (enqueue_takes d daily_scan at none now jobs) in
          pass_make d plan now k entry os later at e
          ∙ rw
              (
                enqueue-taken d daily_scan at none now later there,
                daily_pass_again d plan now os made.1 later move',
              )
              (ap (λ x. (x, later)) (count_nothing (one_if made.0) rest.0))
          ∙ ap (λ x. (nothing_new x.0, later)) (sym first)
    ]
