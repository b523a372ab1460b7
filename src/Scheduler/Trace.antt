-- ===== src/Scheduler/Trace.antt =====
-- The ledger under any sequence of calls by any workers: each call is one transaction, and one
-- that raises is rolled back.
use betmaxxing.Prelude.{ℕ, String, Bool, Option, List, [], ◌∷◌, Result, ok, err}
use betmaxxing.Scheduler.Row.{JobType, Jobs, ClaimedJob, JobLedger, LedgerError}
use betmaxxing.Scheduler.Enqueue.{Digest, enqueue}
use betmaxxing.Scheduler.Claim.{claim_due}
use betmaxxing.Scheduler.Complete.{
  JobRef, mark_succeeded, mark_failed, mark_deferred, mark_skipped, renew_lease,
}
use betmaxxing.Scheduler.Invariant.{
  JobsInv, Commits, enqueue-JobsInv, claim_due-JobsInv, mark_succeeded-JobsInv, mark_failed-JobsInv,
  mark_deferred-JobsInv, mark_skipped-JobsInv, renew_lease-JobsInv,
}

pub data Call : Type 0 where
  call_enqueue : JobType → ℕ → Option String → ℕ → Call
  call_claim : ℕ → String → ℕ → (ℕ → String) → Call
  call_succeeded : JobRef → Option String → ℕ → Call
  call_failed : JobRef → String → Bool → Option ℕ → ℕ → Call
  call_deferred : JobRef → String → ℕ → ℕ → Call
  call_skipped : JobRef → String → ℕ → Call
  call_renew : ClaimedJob → ℕ → Call

-- the table after the transaction
abbrev pub committed : Jobs → Result LedgerError Jobs → Jobs
committed jobs (ok jobs') = jobs'
committed jobs (err _) = jobs

unfoldable pub apply : Digest → JobLedger → Jobs → Call → Jobs
apply d ledger jobs (call_enqueue job_type at scope moment) =
    (enqueue d job_type at scope moment jobs).1
apply d ledger jobs (call_claim moment worker limit tokens) =
    (claim_due ledger moment worker limit tokens jobs).1
apply d ledger jobs (call_succeeded job scan moment) =
    committed jobs (mark_succeeded job scan moment jobs)
apply d ledger jobs (call_failed job error retryable after moment) =
    committed jobs (mark_failed ledger job error retryable after moment jobs)
apply d ledger jobs (call_deferred job reason next moment) =
    committed jobs (mark_deferred job reason next moment jobs)
apply d ledger jobs (call_skipped job reason moment) =
    committed jobs (mark_skipped job reason moment jobs)
apply d ledger jobs (call_renew job moment) = committed jobs (renew_lease ledger job moment jobs)

unfoldable pub run : Digest → JobLedger → Jobs → List Call → Jobs
run d ledger jobs [] = jobs
run d ledger jobs (c ∷ calls) = run d ledger (apply d ledger jobs c) calls

committed-JobsInv :
    (jobs : Jobs) (r : Result LedgerError Jobs)
    → JobsInv jobs
    → Commits JobsInv r
    → JobsInv (committed jobs r)
committed-JobsInv jobs (ok jobs') h k = k
committed-JobsInv jobs (err e) h k = h

apply-JobsInv :
    (d : Digest) (ledger : JobLedger) (jobs : Jobs) (c : Call)
    → JobsInv jobs
    → JobsInv (apply d ledger jobs c)
unfolding apply
apply-JobsInv d ledger jobs (call_enqueue t at s m) h = enqueue-JobsInv d t at s m jobs h
apply-JobsInv d ledger jobs (call_claim m w l t) h = claim_due-JobsInv ledger m w l t jobs h
apply-JobsInv d ledger jobs (call_succeeded j s m) h =
    committed-JobsInv jobs _ h (mark_succeeded-JobsInv j s m jobs h)
apply-JobsInv d ledger jobs (call_failed j e r a m) h =
    committed-JobsInv jobs _ h (mark_failed-JobsInv ledger j e r a m jobs h)
apply-JobsInv d ledger jobs (call_deferred j r n m) h =
    committed-JobsInv jobs _ h (mark_deferred-JobsInv j r n m jobs h)
apply-JobsInv d ledger jobs (call_skipped j r m) h =
    committed-JobsInv jobs _ h (mark_skipped-JobsInv j r m jobs h)
apply-JobsInv d ledger jobs (call_renew j m) h =
    committed-JobsInv jobs _ h (renew_lease-JobsInv ledger j m jobs h)

-- Whatever the workers call, in whatever order, from a table that satisfies the invariant: every
-- row keeps its token, lease, attempts and next attempt consistent with its state, no row passes
-- three attempts, and job ids and occurrences stay unique.
pub run-JobsInv :
    (d : Digest) (ledger : JobLedger) (jobs : Jobs) (calls : List Call)
    → JobsInv jobs
    → JobsInv (run d ledger jobs calls)
unfolding run
run-JobsInv d ledger jobs [] h = h
run-JobsInv d ledger jobs (c ∷ calls) h =
    run-JobsInv d ledger (apply d ledger jobs c) calls (apply-JobsInv d ledger jobs c h)
