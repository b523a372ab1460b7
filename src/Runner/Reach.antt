-- ===== src/Runner/Reach.antt =====
-- The worker touches the ledger's table through the ledger's calls only.
use betmaxxing.Prelude.{
  ℕ, suc, ◌≡◌, refl, sym, ◌∙◌, ap, subst, String, Bool, true, false, none, List, [], ◌∷◌, ◌++◌,
  Bool-cases, inl, inr, if◌then◌else◌, Result, ok, err, leb,
}
use betmaxxing.Identity.Rows.{EventRow}
use betmaxxing.Scheduler.Row.{Jobs, ClaimedJob, JobLedger, LedgerError}
use betmaxxing.Scheduler.Enqueue.{Digest}
use betmaxxing.Scheduler.Complete.{claimed, mark_succeeded, renew_lease}
use betmaxxing.Scheduler.Trace.{
  Call, call_succeeded, call_failed, call_deferred, call_skipped, call_renew, committed, apply, run,
}
use betmaxxing.Runner.Defs.{defer_for_budget, finish_with, finish, next_budget_reset, job_deadline}
use betmaxxing.Runner.Outcome.{
  success, retryable_failure, final_failure, budget_exhausted, lease_lost, RunnerTexts,
  ExecutionOutcome, AcquisitionReport, ExecutionResult, failure,
}
use betmaxxing.Runner.Guard.{
  LeaseGuard, Beat, beat_at, beat_raises, During, other, renewal, renew_once, renewed, enter_guard,
  guard_step, guard_run, new_guard,
}
use betmaxxing.Runner.Tick.{JobRun, Worker, acknowledged, conclude, after_work, run_job, run_jobs}

-- some sequence of the ledger's calls leads from one table to the other
abbrev pub Reaches : Digest → JobLedger → Jobs → Jobs → Type 0
Reaches d ledger before after = (calls : List Call) × (run d ledger before calls ≡ after)

module _ (d : Digest) (ledger : JobLedger) where
  run-append :
      (jobs : Jobs) (xs ys : List Call)
      → run d ledger jobs (xs ++ ys) ≡ run d ledger (run d ledger jobs xs) ys
  unfolding run
  run-append jobs [] ys = refl
  run-append jobs (x ∷ xs) ys = run-append (apply d ledger jobs x) xs ys

  pub stay : (jobs : Jobs) → Reaches d ledger jobs jobs
  unfolding run
  stay jobs = ([], refl)

  pub one_call : (jobs : Jobs) (c : Call) → Reaches d ledger jobs (apply d ledger jobs c)
  unfolding run
  one_call jobs c = (c ∷ [], refl)

  pub some_calls :
      (jobs : Jobs) (calls : List Call) → Reaches d ledger jobs (run d ledger jobs calls)
  some_calls jobs calls = (calls, refl)

  pub further : (a b c : Jobs) → Reaches d ledger a b → Reaches d ledger b c → Reaches d ledger a c
  further a b c (xs, e) (ys, f) = (xs ++ ys, run-append a xs ys ∙ ap (λ t. run d ledger t ys) e ∙ f)

  renewed-jobs :
      (g : LeaseGuard) (r : Result LedgerError Jobs) → (renewed g r).jobs ≡ committed g.jobs r
  renewed-jobs g (ok jobs) = refl
  renewed-jobs g (err e) = refl

  renew_once-Reaches :
      (job : ClaimedJob) (b : Beat) (g : LeaseGuard)
      → Reaches d ledger g.jobs (renew_once ledger job b g).jobs
  unfolding renew_once apply
  renew_once-Reaches job (beat_at t) g =
      subst (Reaches d ledger g.jobs) (sym (renewed-jobs g (renew_lease ledger job t g.jobs)))
        (one_call g.jobs (call_renew job t))
  renew_once-Reaches job beat_raises g = stay g.jobs

  guard_step-Reaches :
      (job : ClaimedJob) (x : During) (g : LeaseGuard)
      → Reaches d ledger g.jobs (guard_step d ledger job x g).jobs
  guard_step-Reaches job (other c) g = one_call g.jobs c
  guard_step-Reaches job (renewal b) g = while_beating g.beating (renew_once-Reaches job b g)
    where
      while_beating :
          (alive : Bool)
          → Reaches d ledger g.jobs (renew_once ledger job b g).jobs
          → Reaches d ledger g.jobs (if alive then renew_once ledger job b g else g).jobs
      while_beating true h = h
      while_beating false h = stay g.jobs

  guard_run-Reaches :
      (job : ClaimedJob) (xs : List During) (g : LeaseGuard)
      → Reaches d ledger g.jobs (guard_run d ledger job xs g).jobs
  unfolding guard_run
  guard_run-Reaches job [] g = stay g.jobs
  guard_run-Reaches job (x ∷ xs) g =
      further g.jobs _ _ (guard_step-Reaches job x g)
        (guard_run-Reaches job xs (guard_step d ledger job x g))

  -- The guard as a whole, from its entry to its exit.
  pub guarded-Reaches :
      (job : ClaimedJob) (b : Beat) (xs : List During) (jobs : Jobs)
      → Reaches d ledger jobs (guard_run d ledger job xs (enter_guard ledger job b jobs)).jobs
  unfolding enter_guard
  guarded-Reaches job b xs jobs =
      further jobs _ _ (renew_once-Reaches job b (new_guard jobs)) (guard_run-Reaches job xs _)

  defer_for_budget-Reaches :
      (texts : RunnerTexts) (events : List EventRow) (job : ClaimedJob) (detail : String) (now : ℕ)
      (jobs : Jobs)
      → Reaches d ledger jobs (committed jobs (defer_for_budget texts events job detail now jobs))
  unfolding defer_for_budget apply
  defer_for_budget-Reaches texts events job detail now jobs =
      elim (Bool-cases (leb (job_deadline events job) (next_budget_reset texts now job.job_id))) [
        | inl e ↦ rw e (one_call jobs (call_skipped (claimed job) _ now))
        | inr e ↦ rw e (one_call jobs (call_deferred (claimed job) _ _ now))
      ]

  finish-Reaches :
      (texts : RunnerTexts) (events : List EventRow) (job : ClaimedJob) (result : ExecutionResult)
      (now : ℕ) (jobs : Jobs)
      → Reaches d ledger jobs (finish texts ledger events job result now jobs)
  unfolding finish apply
  finish-Reaches texts events job result now jobs = by_outcome result.outcome _
    where
      by_outcome :
          (o : ExecutionOutcome) (detail : String)
          → Reaches d ledger jobs
              (committed jobs (finish_with texts ledger events job o detail now jobs))
      by_outcome budget_exhausted detail = defer_for_budget-Reaches texts events job detail now jobs
      by_outcome final_failure detail =
          one_call jobs (call_failed (claimed job) detail false none now)
      by_outcome success detail = one_call jobs (call_failed (claimed job) detail true none now)
      by_outcome retryable_failure detail =
          one_call jobs (call_failed (claimed job) detail true none now)
      by_outcome lease_lost detail = one_call jobs (call_failed (claimed job) detail true none now)

acknowledged-committed :
    (jobs : Jobs) (r : Result LedgerError Jobs) → (acknowledged jobs r).1 ≡ committed jobs r
acknowledged-committed jobs (ok after) = refl
acknowledged-committed jobs (err e) = refl

module _ (w : Worker) where
  conclude-Reaches :
      (job : ClaimedJob) (r : JobRun) (result : ExecutionResult) (o : ExecutionOutcome)
      (jobs : Jobs)
      → Reaches w.digest w.ledger jobs (conclude w job r result o jobs).1
  unfolding apply
  conclude-Reaches job r result success jobs =
      subst (Reaches w.digest w.ledger jobs)
        (sym
          (acknowledged-committed jobs (mark_succeeded (claimed job) result.scan_id r.clock jobs)))
        (one_call w.digest w.ledger jobs (call_succeeded (claimed job) result.scan_id r.clock))
  conclude-Reaches job r result retryable_failure jobs =
      finish-Reaches w.digest w.ledger w.texts r.events job result r.clock jobs
  conclude-Reaches job r result final_failure jobs =
      finish-Reaches w.digest w.ledger w.texts r.events job result r.clock jobs
  conclude-Reaches job r result budget_exhausted jobs =
      finish-Reaches w.digest w.ledger w.texts r.events job result r.clock jobs
  conclude-Reaches job r result lease_lost jobs =
      finish-Reaches w.digest w.ledger w.texts r.events job result r.clock jobs

  after_work-Reaches :
      (job : ClaimedJob) (r : JobRun) (x : Result String AcquisitionReport) (lost : Bool)
      (jobs : Jobs)
      → Reaches w.digest w.ledger jobs (after_work w job r x lost jobs).1
  after_work-Reaches job r (err raised) lost jobs =
      finish-Reaches w.digest w.ledger w.texts r.events job (failure raised) r.clock jobs
  after_work-Reaches job r (ok report) true jobs = stay w.digest w.ledger jobs
  after_work-Reaches job r (ok report) false jobs = conclude-Reaches job r _ _ jobs

  pub run_job-Reaches :
      (r : JobRun) (job : ClaimedJob) (jobs : Jobs)
      → Reaches w.digest w.ledger jobs (run_job w r job jobs).1
  unfolding run_job
  run_job-Reaches r job jobs =
      let d = w.digest in
      let entry = run d w.ledger jobs r.before_entry in
      let guard = guard_run d w.ledger job r.during (enter_guard w.ledger job r.at_entry entry) in
      further d w.ledger jobs entry _ (some_calls d w.ledger jobs r.before_entry) (
        further d w.ledger entry guard.jobs _
          (guarded-Reaches d w.ledger job r.at_entry r.during entry)
          (further d w.ledger guard.jobs _ _ (some_calls d w.ledger guard.jobs r.before_record)
            (after_work-Reaches job r r.returned guard.lost _)))

  pub run_jobs-Reaches :
      (runs : ℕ → JobRun) (n : ℕ) (claims : List ClaimedJob) (jobs : Jobs)
      → Reaches w.digest w.ledger jobs (run_jobs w runs n claims jobs).1
  unfolding run_jobs
  run_jobs-Reaches runs n [] jobs = stay w.digest w.ledger jobs
  run_jobs-Reaches runs n (job ∷ claims) jobs =
      further w.digest w.ledger jobs _ _ (run_job-Reaches (runs n) job jobs)
        (run_jobs-Reaches runs (suc n) claims _)
