-- ===== src/Scheduler/Tests.antt =====
-- The scheduler's theorems at concrete tables.
use betmaxxing.Prelude.{
  ℕ, ◌+◌, String, ◌≡◌, refl, true, none, some, List, [], ◌∷◌, arith, length, min, sort_by,
  get_elem?, ok, eq_iff, if◌then◌else◌, str_eq, ◌==◌, Bool-cases, inl, inr,
}
use betmaxxing.Table.{update, scalar, select, row_count, Keyed}
use betmaxxing.Scheduler.Row.{
  daily_scan, event_milestone, succeeded, SchedulerJobRow, Jobs, by_id, ClaimedJob, JobLedger,
  minutes,
}
use betmaxxing.Scheduler.Enqueue.{Digest, pending_row}
use betmaxxing.Scheduler.Claim.{is_due, due_rows, start, claim_of, claim_due}
use betmaxxing.Scheduler.Complete.{
  claimed, named, mark_succeeded, renew_lease, assert_owns, get_state,
}
use betmaxxing.Scheduler.Invariant.{JobsInv}
use betmaxxing.Scheduler.Trace.{
  Call, call_enqueue, call_claim, call_failed, call_renew, run, run-JobsInv,
}
use betmaxxing.Scheduler.Loop.{claim_due-claims}
use betmaxxing.Scheduler.Fencing.{reclaimed-Refused, claim_used_once, renewed_lease_protects}
use betmaxxing.Scheduler.Ownership.{Refused}
use betmaxxing.Scheduler.Progress.{claim_due-count, claim_due-third_attempt}

abbrev ledger : JobLedger
ledger = record { lease = minutes 10; retry_backoff = minutes 2 }

abbrev digest : Digest
digest = record { sha256_32 = λ s. s; isoformat = λ t. "t" }

abbrev tokens : ℕ → String
tokens n = if n == 0 then "t0" else "t1"

abbrev scan : SchedulerJobRow
scan = pending_row "a" daily_scan 0 "" 0

abbrev milestone : SchedulerJobRow
milestone = pending_row "b" event_milestone (minutes 1) "e1" 0

abbrev two_jobs : Jobs
two_jobs = milestone ∷ scan ∷ []

two_jobs-Keyed : Keyed by_id two_jobs
unfolding row_count
two_jobs-Keyed k = elim (Bool-cases (str_eq "a" k)) [
  | inr other ↦ rw other (ground arith)
  | inl here ↦ rw (← (eq_iff "a" k).0 here) (omega arith)
]

abbrev stuck : SchedulerJobRow
stuck = record (start 0 (minutes 10) "w0" "t" scan scan) { attempts = 3 }

abbrev one_stuck : Jobs
one_stuck = stuck ∷ []

one_stuck-Keyed : Keyed by_id one_stuck
unfolding row_count
one_stuck-Keyed k = ground (arith, eq_iff "a" k)

claim_due-count_example :
    length (claim_due ledger (minutes 1) "w" 5 tokens two_jobs).0
    ≡ min 5 (row_count (is_due (minutes 1)) two_jobs)
claim_due-count_example = claim_due-count ledger (minutes 1) "w" 5 tokens two_jobs two_jobs-Keyed

claim_due-third_attempt_example :
    scalar (by_id "a") (claim_due ledger (minutes 1000) "w" 5 tokens one_stuck).1 ≡ some stuck
unfolding scalar
claim_due-third_attempt_example =
    claim_due-third_attempt ledger (minutes 1000) "w" 5 tokens one_stuck one_stuck-Keyed "a" stuck
      refl refl refl

-- the claim that the query hands out for `scan`
abbrev first_claim : ClaimedJob
first_claim = claim_of (minutes 11) "t0" scan

first_claimed :
    get_elem? (claim_due ledger (minutes 1) "w" 5 tokens two_jobs).0 0 ≡ some first_claim
unfolding due_rows is_due select sort_by
first_claimed = rw (claim_due-claims ledger (minutes 1) "w" 5 tokens two_jobs two_jobs-Keyed) refl

reclaimed-Refused_example :
    Refused ledger
      (record first_claim { claim_token = "old" })
      (claim_due ledger (minutes 1) "w" 5 tokens two_jobs).1
reclaimed-Refused_example =
    reclaimed-Refused ledger (minutes 1) "w" 5 tokens two_jobs two_jobs-Keyed 0 first_claim
      (record first_claim { claim_token = "old" }) first_claimed refl (λ e. cc)

claim_used_once_example :
    let jobs' = (claim_due ledger (minutes 1) "w" 5 tokens two_jobs).1 in
    (assert_owns first_claim jobs' ≡ ok tt)
    × (after : Jobs) × (mark_succeeded (claimed first_claim) (some "s") (minutes 2) jobs'
        ≡ ok after)
    × (get_state "a" after ≡ some succeeded)
    × Refused ledger first_claim after
claim_used_once_example =
    claim_used_once ledger (minutes 1) "w" 5 tokens two_jobs two_jobs-Keyed 0 first_claim (some "s")
      (minutes 2) first_claimed

abbrev held : SchedulerJobRow
held = start 0 5 "w0" "t" scan scan

abbrev held_claim : ClaimedJob
held_claim = claim_of 5 "t" scan

abbrev one_held : Jobs
one_held = held ∷ []

one_held-Keyed : Keyed by_id one_held
unfolding row_count
one_held-Keyed k = ground (arith, eq_iff "a" k)

-- the lease of five microseconds is renewed at 4, and protects the job at 6
renewed_lease_protects_example :
    assert_owns held_claim
      (claim_due ledger 6 "w" 5 tokens
        (record held { lease_expires_at = some (4 + ledger.lease) } ∷ [])).1
    ≡ ok tt
unfolding renew_lease update row_count
renewed_lease_protects_example =
    renewed_lease_protects ledger held_claim 4 6 "w" 5 tokens one_held
      (record held { lease_expires_at = some (4 + ledger.lease) } ∷ []) one_held-Keyed refl
      (omega arith)

empty-JobsInv : JobsInv []
unfolding row_count
empty-JobsInv = record { rows = tt; ids = λ k. omega arith; occurrences = λ k. omega arith }

abbrev calls : List Call
calls =
    call_enqueue daily_scan 0 none 0
    ∷ call_claim 1 "w1" 5 tokens
    ∷ call_failed (named "DAILY_SCAN|t|" (some "t0")) "boom" true none 2
    ∷ call_claim (minutes 5) "w2" 5 tokens
    ∷ call_renew held_claim (minutes 6)
    ∷ []

run-JobsInv_example : JobsInv (run digest ledger [] calls)
run-JobsInv_example = run-JobsInv digest ledger [] calls empty-JobsInv
