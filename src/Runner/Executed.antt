-- ===== src/Runner/Executed.antt =====
-- The jobs that a pass reports as executed are those that the ledger records as succeeded.
use betmaxxing.Prelude.{
  ℕ, suc, ◌≡◌, refl, ◌∙◌, ap, String, Bool, true, false, Option, some, List, [], ◌∷◌, arith,
  Bool-cases, Option-cases, inl, inr, Result, ok, err, All,
}
use betmaxxing.Table.{scalar, Keyed, scalar-update, scalar_sound, All-map}
use betmaxxing.Scheduler.Row.{succeeded, SchedulerJobRow, Jobs, ClaimedJob, by_id}
use betmaxxing.Scheduler.Claim.{claim_due}
use betmaxxing.Scheduler.Complete.{claimed, owned_by, succeed, mark_succeeded, get_state}
use betmaxxing.Scheduler.Trace.{run}
use betmaxxing.Scheduler.Invariant.{JobsInv, claim_due-JobsInv}
use betmaxxing.Scheduler.Ownership.{owns, complete_of_found, complete_of_missing}
use betmaxxing.Scheduler.Moves.{JobsMove, is_final}
use betmaxxing.Scheduler.Final.{move_final}
use betmaxxing.Scheduler.Materialise.{Calendar, ScanTimeError, materialise}
use betmaxxing.Scheduler.Planning.{materialise-JobsInv}
use betmaxxing.Runner.Outcome.{
  success, retryable_failure, final_failure, budget_exhausted, lease_lost, ExecutionOutcome,
  ExecutionResult, AcquisitionReport, milestones_for,
}
use betmaxxing.Runner.Guard.{enter_guard, guard_run}
use betmaxxing.Runner.Tick.{
  JobRun, Worker, Pass, TickError, acknowledged, conclude, after_work, run_job, run_jobs, push_if,
  pass_plan, claim_and_run, tick,
}
use betmaxxing.Runner.Reach.{
  run_job-Reaches, run_jobs-Reaches, guarded-Reaches, further, some_calls,
}
use betmaxxing.Runner.Pass.{Reaches-JobsInv, Reaches-JobsMove}

-- The row of a job succeeded.
pub record Done (job : ClaimedJob) (jobs : Jobs) : Type 0 where
  pub row : SchedulerJobRow
  pub found : scalar (by_id job.job_id) jobs ≡ some row
  pub is_succeeded : row.state ≡ succeeded

-- An acknowledgement that is accepted leaves the job succeeded.
mark_succeeded-Done :
    (job : ClaimedJob) (scan : Option String) (at : ℕ) (jobs : Jobs)
    → Keyed by_id jobs
    → (acknowledged jobs (mark_succeeded (claimed job) scan at jobs)).0 ≡ true
    → Done job (acknowledged jobs (mark_succeeded (claimed job) scan at jobs)).1
unfolding mark_succeeded
mark_succeeded-Done job scan at jobs keyed h =
    let token = some job.claim_token in
    let id = job.job_id in
    elim (Option-cases (scalar (by_id id) jobs)) [
      | inl missing ↦
          let refused = complete_of_missing id token (succeed at scan) jobs missing in
          absurd (ground (arith, h, refused))
      | inr (r, found) ↦
          let decided = complete_of_found id token (succeed at scan) jobs {r = r} keyed found in
          elim (Bool-cases (owns token r)) [
            | inr not_mine ↦ absurd (ground (arith, h, decided, not_mine))
            | inl mine ↦
                let hit = scalar_sound (by_id id) jobs {r = r} found in
                rw (decided, mine)
                  record {
                    row = succeed at scan r;
                    found =
                        scalar-update (by_id id) (owned_by id token) (succeed at scan) (λ x. refl)
                          jobs
                        ∙ rw (found, hit, mine) refl;
                    is_succeeded = refl;
                  }
          ]
    ]

conclude-Done :
    (w : Worker) (job : ClaimedJob) (r : JobRun) (result : ExecutionResult) (o : ExecutionOutcome)
    (jobs : Jobs)
    → Keyed by_id jobs
    → (conclude w job r result o jobs).0 ≡ true
    → Done job (conclude w job r result o jobs).1
conclude-Done w job r result success jobs keyed h =
    mark_succeeded-Done job result.scan_id r.clock jobs keyed h
conclude-Done w job r result retryable_failure jobs keyed h = cc
conclude-Done w job r result final_failure jobs keyed h = cc
conclude-Done w job r result budget_exhausted jobs keyed h = cc
conclude-Done w job r result lease_lost jobs keyed h = cc

after_work-Done :
    (w : Worker) (job : ClaimedJob) (r : JobRun) (x : Result String AcquisitionReport) (lost : Bool)
    (jobs : Jobs)
    → Keyed by_id jobs
    → (after_work w job r x lost jobs).0 ≡ true
    → Done job (after_work w job r x lost jobs).1
after_work-Done w job r (err raised) lost jobs keyed h = cc
after_work-Done w job r (ok report) true jobs keyed h = cc
after_work-Done w job r (ok report) false jobs keyed h = conclude-Done w job r _ _ jobs keyed h

run_job-Done :
    (w : Worker) (r : JobRun) (job : ClaimedJob) (jobs : Jobs)
    → JobsInv jobs
    → (run_job w r job jobs).0 ≡ true
    → Done job (run_job w r job jobs).1
unfolding run_job
run_job-Done w r job jobs inv h =
    let d = w.digest in
    let entry = run d w.ledger jobs r.before_entry in
    let guard = guard_run d w.ledger job r.during (enter_guard w.ledger job r.at_entry entry) in
    let reach = further d w.ledger jobs entry _ (some_calls d w.ledger jobs r.before_entry) (
      further d w.ledger entry guard.jobs _
        (guarded-Reaches d w.ledger job r.at_entry r.during entry)
        (some_calls d w.ledger guard.jobs r.before_record)) in
    after_work-Done w job r r.returned guard.lost _
      (Reaches-JobsInv d w.ledger jobs (run d w.ledger guard.jobs r.before_record) reach inv).ids h

Done-JobsMove :
    (job : ClaimedJob) (before after : Jobs)
    → JobsMove before after
    → Done job before
    → Done job after
Done-JobsMove job before after move h = record {
  row = h.row;
  found = move_final job.job_id h.row before after move (ap is_final h.is_succeeded) h.found;
  is_succeeded = h.is_succeeded;
}

push_if-All :
    (P : ClaimedJob → Type 0) (done : Bool) (job : ClaimedJob) (jobs : List ClaimedJob)
    → (done ≡ true → P job)
    → All P jobs
    → All P (push_if done job jobs)
push_if-All P true job jobs h k = (h refl, k)
push_if-All P false job jobs h k = k

run_jobs-Done :
    (w : Worker) (runs : ℕ → JobRun) (n : ℕ) (claims : List ClaimedJob) (jobs : Jobs)
    → JobsInv jobs
    → All (λ job. Done job (run_jobs w runs n claims jobs).1) (run_jobs w runs n claims jobs).0
unfolding run_jobs
run_jobs-Done w runs n [] jobs inv = tt
run_jobs-Done w runs n (job ∷ claims) jobs inv =
    let one = run_job w (runs n) job jobs in
    let reach = run_job-Reaches w (runs n) job jobs in
    let rest = run_jobs w runs (suc n) claims one.1 in
    push_if-All (λ c. Done c rest.1) one.0 job rest.0
      (λ done.
        Done-JobsMove job one.1 rest.1
          (Reaches-JobsMove w.digest w.ledger one.1 rest.1
            (run_jobs-Reaches w runs (suc n) claims one.1))
          (run_job-Done w (runs n) job jobs inv done))
      (run_jobs-Done w runs (suc n) claims one.1
        (Reaches-JobsInv w.digest w.ledger jobs one.1 reach inv))

abbrev pub executed_of : Result TickError (List ClaimedJob) → List ClaimedJob
executed_of (ok executed) = executed
executed_of (err e) = []

claim_and_run-Done :
    (w : Worker) (p : Pass) (r : Result ScanTimeError ℕ) (jobs : Jobs)
    → JobsInv jobs
    → All
        (λ job. Done job (claim_and_run w p (r, jobs)).1)
        (executed_of (claim_and_run w p (r, jobs)).0)
claim_and_run-Done w p (err e) jobs inv = tt
claim_and_run-Done w p (ok n) jobs inv =
    let claims = claim_due w.ledger p.now p.worker 10 p.tokens jobs in
    run_jobs-Done w p.runs 0 claims.0 claims.1
      (claim_due-JobsInv w.ledger p.now p.worker 10 p.tokens jobs inv)

-- A pass reports only what the ledger records: from a table that satisfies the ledger's invariant,
-- every job that `tick` returns has the state SUCCEEDED in the table it leaves, whatever other workers
-- called while the jobs of the pass ran.
pub tick-executed :
    (w : Worker) (cal : Calendar) (p : Pass) (jobs : Jobs)
    → JobsInv jobs
    → All
        (λ job. get_state job.job_id (tick w cal p jobs).1 ≡ some succeeded)
        (executed_of (tick w cal p jobs).0)
unfolding tick get_state
tick-executed w cal p jobs inv = elim (Option-cases (milestones_for p.now p.offsets p.discovered)) [
  | inl e ↦ rw (e, tick) tt
  | inr (ms, e) ↦
      let planned = materialise w.digest cal (pass_plan p ms) jobs in
      rw (e, tick)
        (All-map _ _ _ (λ job h. rw (h.found, get_state) (ap some h.is_succeeded))
          (claim_and_run-Done w p planned.0 planned.1
            (materialise-JobsInv w.digest cal (pass_plan p ms) jobs inv)))
]
