-- ===== src/Scheduler/Planning.antt =====
-- `materialise` as a whole: what a second pass does, and that the ledger's invariant is kept.
use betmaxxing.Prelude.{
  ℕ, ◌≡◌, refl, sym, ◌∙◌, ap, subst, String, Bool, none, some, List, [], ◌∷◌, Bool-cases, inl, inr,
  Result, ok, err,
}
use betmaxxing.Scheduler.Row.{daily_scan, event_milestone, Jobs, JobLedger}
use betmaxxing.Scheduler.Enqueue.{Digest, enqueue}
use betmaxxing.Scheduler.Trace.{Call, run}
use betmaxxing.Scheduler.Invariant.{JobsInv, enqueue-JobsInv}
use betmaxxing.Scheduler.Moves.{JobsMove, stays, both, enqueue-JobsMove, run-JobsMove}
use betmaxxing.Scheduler.Final.{move_taken}
use betmaxxing.Scheduler.Materialise.{
  Calendar, Planned, plan_entry, ScanTimeError, daily_pass, milestone_pass, Plan, then_milestones,
  days_of, materialise, out_of_scope,
}
use betmaxxing.Scheduler.Replan.{
  Planned-cases, pass_over, pass_stop, pass_make, enqueue-taken, enqueue_takes, daily_pass-JobsMove,
  daily_pass_again, nothing_new,
}

pub milestone_pass-JobsMove :
    (d : Digest) (out : ℕ → Bool) (now : ℕ) (ms : List (String × ℕ)) (jobs : Jobs)
    → JobsMove jobs (milestone_pass d out now ms jobs).1
unfolding milestone_pass
milestone_pass-JobsMove d out now [] jobs = stays jobs
milestone_pass-JobsMove d out now ((event_id, at) ∷ ms) jobs = elim (Bool-cases (out at)) [
  | inl e ↦ rw e (milestone_pass-JobsMove d out now ms jobs)
  | inr e ↦ rw e (
      both jobs _ _ (enqueue-JobsMove d event_milestone at (some event_id) now jobs)
        (milestone_pass-JobsMove d out now ms _))
]

milestone_pass_again :
    (d : Digest) (out : ℕ → Bool) (now : ℕ) (ms : List (String × ℕ)) (jobs later : Jobs)
    → JobsMove (milestone_pass d out now ms jobs).1 later
    → milestone_pass d out now ms later ≡ (0, later)
unfolding milestone_pass
milestone_pass_again d out now [] jobs later move = refl
milestone_pass_again d out now ((event_id, at) ∷ ms) jobs later move = elim (Bool-cases (out at)) [
  | inl e ↦ rw (e, milestone_pass_again d out now ms jobs later (rw e at move)) refl
  | inr e ↦
      let made = enqueue d event_milestone at (some event_id) now jobs in
      let rest = milestone_pass d out now ms made.1 in
      let move' : JobsMove rest.1 later = rw e at move in
      let there =
        move_taken _ event_milestone _ _ made.1 later
          (both made.1 rest.1 later (milestone_pass-JobsMove d out now ms made.1) move')
          (enqueue_takes d event_milestone at (some event_id) now jobs) in
      rw
        (
          e,
          enqueue-taken d event_milestone at (some event_id) now later there,
          milestone_pass_again d out now ms made.1 later move',
        )
        refl
]

then_milestones-JobsMove :
    (d : Digest) (plan : Plan) (r : Result ScanTimeError ℕ) (jobs : Jobs)
    → JobsMove jobs (then_milestones d plan (r, jobs)).1
then_milestones-JobsMove d plan (ok n) jobs =
    milestone_pass-JobsMove d _ plan.now plan.milestones jobs
then_milestones-JobsMove d plan (err e) jobs = stays jobs

then_milestones_again :
    (d : Digest) (plan : Plan) (r : Result ScanTimeError ℕ) (jobs later : Jobs)
    → JobsMove (then_milestones d plan (r, jobs)).1 later
    → then_milestones d plan (nothing_new r, later)
      ≡ (nothing_new (then_milestones d plan (r, jobs)).0, later)
then_milestones_again d plan (ok n) jobs later move =
    rw
      (milestone_pass_again d (out_of_scope plan.now plan.horizon plan.catchup_grace) plan.now
        plan.milestones jobs later move)
      refl
then_milestones_again d plan (err e) jobs later move = refl

pub materialise-JobsMove :
    (d : Digest) (cal : Calendar) (plan : Plan) (jobs : Jobs)
    → JobsMove jobs (materialise d cal plan jobs).1
unfolding materialise
materialise-JobsMove d cal plan jobs =
    let daily =
      daily_pass d (plan_entry cal plan.now plan.horizon plan.catchup_grace) plan.now (days_of plan)
        jobs in
    both jobs daily.1 _ (daily_pass-JobsMove d _ plan.now (days_of plan) jobs)
      (then_milestones-JobsMove d plan daily.0 daily.1)

-- Planning is idempotent: after a pass of `materialise` and any calls of any workers, another pass with
-- the same plan leaves the table as it finds it and counts nothing as created; a scan time that is no
-- time of day raises in both.
pub materialise_again :
    (d : Digest) (cal : Calendar) (plan : Plan) (ledger : JobLedger) (jobs : Jobs)
    (calls : List Call)
    → let first = materialise d cal plan jobs in
      let later = run d ledger first.1 calls in
      materialise d cal plan later ≡ (nothing_new first.0, later)
unfolding materialise
materialise_again d cal plan ledger jobs calls =
    let entry = plan_entry cal plan.now plan.horizon plan.catchup_grace in
    let daily = daily_pass d entry plan.now (days_of plan) jobs in
    let first = then_milestones d plan daily in
    let later = run d ledger first.1 calls in
    let move = run-JobsMove d ledger first.1 calls in
    ap (then_milestones d plan) (
      daily_pass_again d entry plan.now (days_of plan) jobs later
        (both daily.1 first.1 later (then_milestones-JobsMove d plan daily.0 daily.1) move))
    ∙ then_milestones_again d plan daily.0 daily.1 later move

daily_pass-JobsInv :
    (d : Digest) (plan : ℕ → String → Planned) (now : ℕ) (os : List (ℕ × String)) (jobs : Jobs)
    → JobsInv jobs
    → JobsInv (daily_pass d plan now os jobs).1
unfolding daily_pass
daily_pass-JobsInv d plan now [] jobs h = h
daily_pass-JobsInv d plan now ((k, entry) ∷ os) jobs h = elim (Planned-cases (plan k entry)) [
  | inl e ↦
      subst (λ x. JobsInv x.1) (sym (pass_over d plan now k entry os jobs e))
        (daily_pass-JobsInv d plan now os jobs h)
  | inr (inl e) ↦ subst (λ x. JobsInv x.1) (sym (pass_stop d plan now k entry os jobs e)) h
  | inr (inr (at, e)) ↦
      subst (λ x. JobsInv x.1) (sym (pass_make d plan now k entry os jobs at e))
        (daily_pass-JobsInv d plan now os _ (enqueue-JobsInv d daily_scan at none now jobs h))
]

milestone_pass-JobsInv :
    (d : Digest) (out : ℕ → Bool) (now : ℕ) (ms : List (String × ℕ)) (jobs : Jobs)
    → JobsInv jobs
    → JobsInv (milestone_pass d out now ms jobs).1
unfolding milestone_pass
milestone_pass-JobsInv d out now [] jobs h = h
milestone_pass-JobsInv d out now ((event_id, at) ∷ ms) jobs h = elim (Bool-cases (out at)) [
  | inl e ↦ rw e (milestone_pass-JobsInv d out now ms jobs h)
  | inr e ↦ rw e (
      milestone_pass-JobsInv d out now ms _
        (enqueue-JobsInv d event_milestone at (some event_id) now jobs h))
]

-- A pass keeps the ledger's invariant, also where it raises.
pub materialise-JobsInv :
    (d : Digest) (cal : Calendar) (plan : Plan) (jobs : Jobs)
    → JobsInv jobs
    → JobsInv (materialise d cal plan jobs).1
unfolding materialise
materialise-JobsInv d cal plan jobs h =
    let entry = plan_entry cal plan.now plan.horizon plan.catchup_grace in
    let daily = daily_pass d entry plan.now (days_of plan) jobs in
    more daily.0 daily.1 (daily_pass-JobsInv d entry plan.now (days_of plan) jobs h)
  where
    more :
        (r : Result ScanTimeError ℕ) (table : Jobs)
        → JobsInv table
        → JobsInv (then_milestones d plan (r, table)).1
    more (ok n) table i = milestone_pass-JobsInv d _ plan.now plan.milestones table i
    more (err e) table i = i
