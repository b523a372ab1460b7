-- ===== src/Runner/Pass.antt =====
-- What the steps of a pass keep of the ledger: its invariant, and its final rows.
use betmaxxing.Prelude.{ℕ, subst, Result, ok, err}
use betmaxxing.Scheduler.Row.{Jobs, JobLedger}
use betmaxxing.Scheduler.Enqueue.{Digest}
use betmaxxing.Scheduler.Claim.{claim_due}
use betmaxxing.Scheduler.Trace.{run-JobsInv}
use betmaxxing.Scheduler.Invariant.{JobsInv, claim_due-JobsInv}
use betmaxxing.Scheduler.Moves.{JobsMove, run-JobsMove}
use betmaxxing.Scheduler.Materialise.{ScanTimeError}
use betmaxxing.Runner.Tick.{Worker, Pass, claim_and_run}
use betmaxxing.Runner.Reach.{Reaches, run_jobs-Reaches}

pub Reaches-JobsInv :
    (d : Digest) (ledger : JobLedger) (before after : Jobs)
    → Reaches d ledger before after
    → JobsInv before
    → JobsInv after
Reaches-JobsInv d ledger before after (calls, e) h =
    subst JobsInv e (run-JobsInv d ledger before calls h)

pub Reaches-JobsMove :
    (d : Digest) (ledger : JobLedger) (before after : Jobs)
    → Reaches d ledger before after
    → JobsMove before after
Reaches-JobsMove d ledger before after (calls, e) =
    subst (JobsMove before) e (run-JobsMove d ledger before calls)

pub claim_and_run-JobsInv :
    (w : Worker) (p : Pass) (r : Result ScanTimeError ℕ) (jobs : Jobs)
    → JobsInv jobs
    → JobsInv (claim_and_run w p (r, jobs)).1
claim_and_run-JobsInv w p (err e) jobs h = h
claim_and_run-JobsInv w p (ok n) jobs h =
    let claims = claim_due w.ledger p.now p.worker 10 p.tokens jobs in
    Reaches-JobsInv w.digest w.ledger claims.1 _ (run_jobs-Reaches w p.runs 0 claims.0 claims.1)
      (claim_due-JobsInv w.ledger p.now p.worker 10 p.tokens jobs h)
