-- ===== src/Scheduler/OwnIds.antt =====
-- Every call of the ledger (src/betmaxxing/scheduler/ledger.py) keeps each row's id that of its own
-- occurrence, which no completion and no claim changes.
use betmaxxing.Prelude.{
  ℕ, suc, ◌+◌, String, Option, List, [], ◌∷◌, Bool-cases, Option-cases, inl, inr, All, ◌==◌,
}
use betmaxxing.Table.{row_count, scalar, All-update}
use betmaxxing.Scheduler.Row.{SchedulerJobRow, Jobs, by_id, JobLedger}
use betmaxxing.Scheduler.Enqueue.{Digest}
use betmaxxing.Scheduler.Claim.{unchanged_since, start, claim_one, claim_rows, claim_due, due_rows}
use betmaxxing.Scheduler.Complete.{
  identify, owned_by, complete, succeed, mark_succeeded, mark_failed, defer, mark_deferred, skip,
  mark_skipped, renew, renew_lease,
}
use betmaxxing.Scheduler.Occurrence.{OwnId, enqueue-OwnId}
use betmaxxing.Scheduler.Trace.{
  Call, call_enqueue, call_claim, call_succeeded, call_failed, call_deferred, call_skipped,
  call_renew, committed, apply, run,
}

module _ (d : Digest) where
  complete-OwnId :
      (id : String) (token : Option String) (f : SchedulerJobRow → SchedulerJobRow) (jobs : Jobs)
      → ((r : SchedulerJobRow) → OwnId d r → OwnId d (f r))
      → All (OwnId d) jobs
      → All (OwnId d) (committed jobs (complete id token f jobs))
  unfolding complete
  complete-OwnId id token f jobs keeps own =
      elim (Bool-cases (row_count (owned_by id token) jobs == 1)) [
        | inl e ↦ rw e (All-update (OwnId d) (owned_by id token) f jobs (λ r hit h. keeps r h) own)
        | inr e ↦ rw e own
      ]

  claim_rows-OwnId :
      (moment expiry : ℕ) (worker : String) (tokens : ℕ → String) (n : ℕ) (rows jobs : Jobs)
      → All (OwnId d) jobs
      → All (OwnId d) (claim_rows moment expiry worker tokens n rows jobs).1
  unfolding claim_rows claim_one
  claim_rows-OwnId moment expiry worker tokens n [] jobs own = own
  claim_rows-OwnId moment expiry worker tokens n (row ∷ rows) jobs own =
      claim_rows-OwnId moment expiry worker tokens (suc n) rows _ (
        All-update (OwnId d) (unchanged_since row) (start moment expiry worker (tokens n) row) jobs
          (λ r hit h. record { id = h.id; on_minute = h.on_minute }) own)

  apply-OwnId :
      (ledger : JobLedger) (jobs : Jobs) (c : Call)
      → All (OwnId d) jobs
      → All (OwnId d) (apply d ledger jobs c)
  unfolding apply claim_due mark_succeeded mark_failed mark_deferred mark_skipped renew_lease
  apply-OwnId ledger jobs (call_enqueue t at s m) own = enqueue-OwnId d t at s m jobs own
  apply-OwnId ledger jobs (call_claim m w l t) own =
      claim_rows-OwnId m (m + ledger.lease) w t 0 (due_rows m l jobs) jobs own
  apply-OwnId ledger jobs (call_succeeded j s m) own =
      complete-OwnId (identify j).0 (identify j).1 (succeed m s) jobs
        (λ r h. record { id = h.id; on_minute = h.on_minute }) own
  apply-OwnId ledger jobs (call_failed j e retryable a m) own =
      elim (Option-cases (scalar (by_id (identify j).0) jobs)) [
        | inl missing ↦ rw (missing, committed) own
        | inr (row, found) ↦
            rw (found, committed)
              (complete-OwnId (identify j).0 (identify j).1 _ jobs
                (λ r h. record { id = h.id; on_minute = h.on_minute }) own)
      ]
  apply-OwnId ledger jobs (call_deferred j r n m) own =
      complete-OwnId (identify j).0 (identify j).1 (defer m r n) jobs
        (λ r h. record { id = h.id; on_minute = h.on_minute }) own
  apply-OwnId ledger jobs (call_skipped j r m) own =
      complete-OwnId (identify j).0 (identify j).1 (skip m r) jobs
        (λ r h. record { id = h.id; on_minute = h.on_minute }) own
  apply-OwnId ledger jobs (call_renew j m) own =
      complete-OwnId j.job_id _ (renew _) jobs
        (λ r h. record { id = h.id; on_minute = h.on_minute }) own

  -- Whatever the workers call, in whatever order, each row keeps the id of its own occurrence: so it is
  -- in every table that calls lead to from the empty one.
  pub run-OwnId :
      (ledger : JobLedger) (jobs : Jobs) (calls : List Call)
      → All (OwnId d) jobs
      → All (OwnId d) (run d ledger jobs calls)
  unfolding run
  run-OwnId ledger jobs [] own = own
  run-OwnId ledger jobs (c ∷ calls) own =
      run-OwnId ledger (apply d ledger jobs c) calls (apply-OwnId ledger jobs c own)
