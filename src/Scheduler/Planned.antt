-- ===== src/Scheduler/Planned.antt =====
-- A pass forgets nothing: every planned instant has its occurrence afterwards.
use betmaxxing.Prelude.{
  ℕ, ◌≡◌, refl, sym, ◌∙◌, subst, String, Bool, true, false, Option, none, some, List, [], ◌∷◌,
  arith, Bool-cases, inl, inr, ◌⊎◌, Result, ok, err, All,
}
use betmaxxing.Table.{All-map}
use betmaxxing.Scheduler.Row.{JobType, daily_scan, event_milestone, Jobs}
use betmaxxing.Scheduler.Enqueue.{Digest, enqueue, same_occurrence, scope_text, to_minute}
use betmaxxing.Scheduler.Moves.{JobsMove}
use betmaxxing.Scheduler.Final.{move_found}
use betmaxxing.Scheduler.Occurrence.{Faithful, OwnId, Present, enqueue-OwnId, enqueue-Present}
use betmaxxing.Scheduler.Materialise.{
  Calendar, Planned, passed_over, impossible_time, planned_at, plan_entry, ScanTimeError, one_if,
  count_in, daily_pass, milestone_pass, Plan, then_milestones, days_of, materialise, out_of_scope,
}
use betmaxxing.Scheduler.Replan.{
  Planned-cases, pass_over, pass_stop, pass_make, daily_pass-JobsMove,
}
use betmaxxing.Scheduler.Planning.{milestone_pass-JobsMove}

-- An instant to be planned has a row of its daily scan in the table.
abbrev pub Has : Jobs → Planned → Type 0
Has jobs (planned_at at) = Present daily_scan at none jobs
Has jobs _ = Unit

move-Present :
    (t : JobType) (at : ℕ) (scope : Option String) (before after : Jobs)
    → JobsMove before after
    → Present t at scope before
    → Present t at scope after
move-Present t at scope before after move h =
    move_found (same_occurrence t (to_minute at) (scope_text scope)) before after
      (λ f p safe r. safe.same_key t (to_minute at) (scope_text scope) r) move h

move-Has : (before after : Jobs) (p : Planned) → JobsMove before after → Has before p → Has after p
move-Has before after passed_over move h = tt
move-Has before after impossible_time move h = tt
move-Has before after (planned_at at) move h = move-Present daily_scan at none before after move h

abbrev pub raises : Result ScanTimeError ℕ → Bool
raises (ok n) = false
raises (err e) = true

count_in-raises : (n : ℕ) (r : Result ScanTimeError ℕ) → raises (count_in n r) ≡ raises r
count_in-raises n (ok m) = refl
count_in-raises n (err e) = refl

daily_pass-Has :
    (d : Digest) (plan : ℕ → String → Planned) (now : ℕ) (os : List (ℕ × String)) (jobs : Jobs)
    → Faithful d
    → All (OwnId d) jobs
    → raises (daily_pass d plan now os jobs).0 ≡ false
    → All (λ o. Has (daily_pass d plan now os jobs).1 (plan o.0 o.1)) os
unfolding daily_pass
daily_pass-Has d plan now [] jobs faithful own fine = tt
daily_pass-Has d plan now ((k, entry) ∷ os) jobs faithful own fine =
    elim (Planned-cases (plan k entry)) [
      | inl e ↦
          let first = pass_over d plan now k entry os jobs e in
          (
            subst (Has _) (sym e) tt,
            subst (λ x. All (λ o. Has x.1 (plan o.0 o.1)) os) (sym first)
                (daily_pass-Has d plan now os jobs faithful own
                  (subst (λ x. raises x.0 ≡ false) first fine)),
          )
      | inr (inl e) ↦
          let first = pass_stop d plan now k entry os jobs e in absurd (ground (arith, fine, first))
      | inr (inr (at, e)) ↦
          let made = enqueue d daily_scan at none now jobs in
          let rest = daily_pass d plan now os made.1 in
          let first = pass_make d plan now k entry os jobs at e in
          let fine' =
            sym (count_in-raises (one_if made.0) rest.0)
            ∙ subst (λ x. raises x.0 ≡ false) first fine in
          (
            subst (λ x. Has x.1 (plan k entry)) (sym first)
                (subst (Has rest.1) (sym e) (
                  move-Has made.1 rest.1 (planned_at at) (daily_pass-JobsMove d plan now os made.1)
                    (enqueue-Present d daily_scan at none now jobs faithful own))),
            subst (λ x. All (λ o. Has x.1 (plan o.0 o.1)) os) (sym first)
                (daily_pass-Has d plan now os made.1 faithful
                  (enqueue-OwnId d daily_scan at none now jobs own) fine'),
          )
    ]

daily_pass-OwnId :
    (d : Digest) (plan : ℕ → String → Planned) (now : ℕ) (os : List (ℕ × String)) (jobs : Jobs)
    → All (OwnId d) jobs
    → All (OwnId d) (daily_pass d plan now os jobs).1
unfolding daily_pass
daily_pass-OwnId d plan now [] jobs own = own
daily_pass-OwnId d plan now ((k, entry) ∷ os) jobs own = elim (Planned-cases (plan k entry)) [
  | inl e ↦
      subst (λ x. All (OwnId d) x.1) (sym (pass_over d plan now k entry os jobs e))
        (daily_pass-OwnId d plan now os jobs own)
  | inr (inl e) ↦ subst (λ x. All (OwnId d) x.1) (sym (pass_stop d plan now k entry os jobs e)) own
  | inr (inr (at, e)) ↦
      subst (λ x. All (OwnId d) x.1) (sym (pass_make d plan now k entry os jobs at e))
        (daily_pass-OwnId d plan now os _ (enqueue-OwnId d daily_scan at none now jobs own))
]

-- A milestone is out of the plan's scope, or has its row in the table.
abbrev pub HasMilestone : (ℕ → Bool) → Jobs → String × ℕ → Type 0
HasMilestone out jobs (event_id, at) =
    (out at ≡ true) ⊎ Present event_milestone at (some event_id) jobs

milestone_pass-HasMilestone :
    (d : Digest) (out : ℕ → Bool) (now : ℕ) (ms : List (String × ℕ)) (jobs : Jobs)
    → Faithful d
    → All (OwnId d) jobs
    → All (HasMilestone out (milestone_pass d out now ms jobs).1) ms
unfolding milestone_pass
milestone_pass-HasMilestone d out now [] jobs faithful own = tt
milestone_pass-HasMilestone d out now ((event_id, at) ∷ ms) jobs faithful own =
    elim (Bool-cases (out at)) [
      | inl e ↦ (inl e, milestone_pass-HasMilestone d out now ms _ faithful (rw e own))
      | inr e ↦
          let made = enqueue d event_milestone at (some event_id) now jobs in
          let rest = milestone_pass d out now ms made.1 in
          (
            inr (
                rw e (
                  move-Present event_milestone at (some event_id) made.1 rest.1
                    (milestone_pass-JobsMove d out now ms made.1)
                    (enqueue-Present d event_milestone at (some event_id) now jobs faithful own))),
            milestone_pass-HasMilestone d out now ms _ faithful
                (rw e (enqueue-OwnId d event_milestone at (some event_id) now jobs own)),
          )
    ]

pub record Complete (cal : Calendar) (plan : Plan) (jobs : Jobs) : Type 0 where
  pub daily :
      All
        (λ o. Has jobs (plan_entry cal plan.now plan.horizon plan.catchup_grace o.0 o.1))
        (days_of plan)
  pub milestones :
      All
        (HasMilestone (out_of_scope plan.now plan.horizon plan.catchup_grace) jobs)
        plan.milestones

then_milestones-raises :
    (d : Digest) (plan : Plan) (r : Result ScanTimeError ℕ) (jobs : Jobs)
    → raises (then_milestones d plan (r, jobs)).0 ≡ raises r
then_milestones-raises d plan (ok n) jobs = refl
then_milestones-raises d plan (err e) jobs = refl

then_milestones-Complete :
    (d : Digest) (cal : Calendar) (plan : Plan) (r : Result ScanTimeError ℕ) (jobs : Jobs)
    → Faithful d
    → All (OwnId d) jobs
    → raises r ≡ false
    → All
        (λ o. Has jobs (plan_entry cal plan.now plan.horizon plan.catchup_grace o.0 o.1))
        (days_of plan)
    → Complete cal plan (then_milestones d plan (r, jobs)).1
then_milestones-Complete d cal plan (err e) jobs faithful own fine h = cc
then_milestones-Complete d cal plan (ok n) jobs faithful own fine h = record {
  daily =
      All-map _ _ (days_of plan)
        (λ o has.
          move-Has jobs _ (plan_entry cal plan.now plan.horizon plan.catchup_grace o.0 o.1)
            (milestone_pass-JobsMove d _ plan.now plan.milestones jobs) has)
        h;
  milestones = milestone_pass-HasMilestone d _ plan.now plan.milestones jobs faithful own;
}

-- A pass that does not raise forgets nothing: afterwards every daily scan time that reads as an instant
-- in the window, on every day of the horizon, has a row of a daily scan at its minute, and every milestone
-- in the window a row of that event's milestone at its minute. This is so if the hash of ids does not
-- collide, the text of an instant tells minutes apart, and each row that was there has the id of its own
-- occurrence.
pub materialise-Complete :
    (d : Digest) (cal : Calendar) (plan : Plan) (jobs : Jobs)
    → Faithful d
    → All (OwnId d) jobs
    → raises (materialise d cal plan jobs).0 ≡ false
    → Complete cal plan (materialise d cal plan jobs).1
unfolding materialise
materialise-Complete d cal plan jobs faithful own fine =
    let entry = plan_entry cal plan.now plan.horizon plan.catchup_grace in
    let daily = daily_pass d entry plan.now (days_of plan) jobs in
    let quiet = sym (then_milestones-raises d plan daily.0 daily.1) ∙ fine in
    then_milestones-Complete d cal plan daily.0 daily.1 faithful
      (daily_pass-OwnId d entry plan.now (days_of plan) jobs own) quiet
      (daily_pass-Has d entry plan.now (days_of plan) jobs faithful own quiet)
