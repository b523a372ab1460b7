-- ===== src/Scheduler/Fencing.antt =====
-- Fencing tokens: a claim that has been superseded or spent is refused everywhere.
use betmaxxing.Prelude.{
  ℕ, ◌+◌, ◌<◌, String, ◌≡◌, refl, ◌≢◌, ap, true, false, Option, none, some, arith, opt_str_eq_iff,
  if◌then◌else◌, All-get_elem?, get_elem?, Bool-cases, Option-cases, inl, inr, ok, err,
}
use betmaxxing.Table.{
  scalar, update, Keyed, row_count-update, row_count-update_self, scalar-update, scalar_sound,
}
use betmaxxing.Scheduler.Row.{
  running, succeeded, SchedulerJobRow, Jobs, by_id, ClaimedJob, JobLedger, stale_lease,
}
use betmaxxing.Scheduler.Claim.{is_due, unchanged_since, start, claim_one, claim_due}
use betmaxxing.Scheduler.Complete.{
  claimed, owned_by, mark_succeeded, renew, renew_lease, assert_owns, get_state,
}
use betmaxxing.Scheduler.Loop.{claim_due-Holds, claim_due-Keyed, claim_due-not_due}
use betmaxxing.Scheduler.Ownership.{
  owns, complete_of_found, complete_of_missing, Refused, not_owner-Refused, stale_token,
  assert_owns_of_found, owner_finishes,
}

module _ (ledger : JobLedger) (moment : ℕ) (worker : String) (limit : ℕ) (tokens : ℕ → String)
    (jobs : Jobs) (keyed : Keyed by_id jobs) where
  -- In a table with unique ids, once a job has been claimed, a claim on it with another token
  -- can neither complete it in any way, nor renew its lease, nor pass the check before an effect.
  pub reclaimed-Refused :
      (i : ℕ) (c stale : ClaimedJob)
      → get_elem? (claim_due ledger moment worker limit tokens jobs).0 i ≡ some c
      → stale.job_id ≡ c.job_id
      → stale.claim_token ≢ c.claim_token
      → Refused ledger stale (claim_due ledger moment worker limit tokens jobs).1
  reclaimed-Refused i c stale at same ne =
      let held =
        All-get_elem? _ _ i (claim_due-Holds ledger moment worker limit tokens jobs keyed) at in
      not_owner-Refused ledger stale _ {r = held.row}
        (claim_due-Keyed ledger moment worker limit tokens jobs keyed) (rw same held.found)
        (stale_token stale c.claim_token held.row held.token ne)

  -- From a table with unique ids: the worker that a claim was handed to may act for the job and may acknowledge it; the
  -- acknowledgement is recorded, and the same claim then serves for nothing more.
  pub claim_used_once :
      (i : ℕ) (c : ClaimedJob) (scan : Option String) (at : ℕ)
      → get_elem? (claim_due ledger moment worker limit tokens jobs).0 i ≡ some c
      → let jobs' = (claim_due ledger moment worker limit tokens jobs).1 in
        (assert_owns c jobs' ≡ ok tt)
        × (after : Jobs) × (mark_succeeded (claimed c) scan at jobs' ≡ ok after)
        × (get_state c.job_id after ≡ some succeeded)
        × Refused ledger c after
  claim_used_once i c scan at e =
      let held =
        All-get_elem? _ _ i (claim_due-Holds ledger moment worker limit tokens jobs keyed) e in
      owner_finishes ledger c scan at _ held.row
        (claim_due-Keyed ledger moment worker limit tokens jobs keyed) held.found held.is_running
        held.token

-- Two workers that selected the same row cannot both win it: after one worker's round for the row,
-- under a token that the row did not have, another's round for the same selection claims nothing.
pub single_winner :
    (moment expiry moment' expiry' : ℕ) (a b token token' : String) (row : SchedulerJobRow)
    (jobs : Jobs)
    → row.claim_token ≢ some token
    → (claim_one moment' expiry' b token' row (claim_one moment expiry a token row jobs).1).0 ≡ none
unfolding claim_one
single_winner moment expiry moment' expiry' a b token token' row jobs fresh =
    rw
      (row_count-update_self (unchanged_since row) (start moment expiry a token row)
        (λ r t. changed r) jobs)
      refl
  where
    changed :
        (r : SchedulerJobRow) → unchanged_since row (start moment expiry a token row r) ≡ false
    changed r = ground (arith, opt_str_eq_iff (some token) row.claim_token)

running_of_owns :
    (token : Option String) (r : SchedulerJobRow) → owns token r ≡ true → r.state ≡ running
running_of_owns token r e = ground arith

-- A running row whose lease is still running is not due.
live_lease :
    (now expiry : ℕ) (r : SchedulerJobRow)
    → r.state ≡ running
    → now < expiry
    → is_due now (renew expiry r) ≡ false
unfolding is_due
live_lease now expiry r e early = rw e (ground arith)

renewed_row :
    (ledger : JobLedger) (job : ClaimedJob) (moment : ℕ) (jobs jobs' : Jobs) (r : SchedulerJobRow)
    → Keyed by_id jobs
    → scalar (by_id job.job_id) jobs ≡ some r
    → renew_lease ledger job moment jobs ≡ ok jobs'
    → (owns (some job.claim_token) r ≡ true)
      × (Keyed by_id jobs')
      × (scalar (by_id job.job_id) jobs' ≡ some (renew (moment + ledger.lease) r))
unfolding renew_lease
renewed_row ledger job moment jobs jobs' r keyed found renewed =
    let token = some job.claim_token in
    let p = owned_by job.job_id token in
    let f = renew (moment + ledger.lease) in
    let exact = complete_of_found job.job_id token f jobs keyed found in
    elim (Bool-cases (owns token r)) [
      | inr e ↦
          absurd
            (cc (exact, renewed, ap (λ b. if b then ok (update p f jobs) else err stale_lease) e))
      | inl e ↦
          let same : update p f jobs ≡ jobs' = ground (arith, exact) in
          (
            e,
            (λ k. rw (← same) (rw (row_count-update (by_id k) p f (λ x. refl) jobs) (keyed k))),
            rw (← same) (
                rw
                  (
                    scalar-update (by_id job.job_id) p f (λ x. refl) jobs,
                    found,
                    scalar_sound (by_id job.job_id) jobs found,
                    e,
                  )
                  refl),
          )
    ]

missing_not_renewed :
    (ledger : JobLedger) (job : ClaimedJob) (moment : ℕ) (jobs jobs' : Jobs)
    → scalar (by_id job.job_id) jobs ≡ none
    → renew_lease ledger job moment jobs ≢ ok jobs'
unfolding renew_lease
missing_not_renewed ledger job moment jobs jobs' missing e = cc (
    complete_of_missing job.job_id (some job.claim_token) (renew (moment + ledger.lease)) jobs
      missing)

-- In a table with unique ids, a renewal that succeeds protects the job: after a claim made before
-- `moment + lease`, by any worker, the holder still passes the ownership check.
pub renewed_lease_protects :
    (ledger : JobLedger) (job : ClaimedJob) (moment now : ℕ) (worker : String) (limit : ℕ)
    (tokens : ℕ → String) (jobs jobs' : Jobs)
    → Keyed by_id jobs
    → renew_lease ledger job moment jobs ≡ ok jobs'
    → now < moment + ledger.lease
    → assert_owns job (claim_due ledger now worker limit tokens jobs').1 ≡ ok tt
renewed_lease_protects ledger job moment now worker limit tokens jobs jobs' keyed renewed early =
    elim (Option-cases (scalar (by_id job.job_id) jobs)) [
      | inl missing ↦ absurd (missing_not_renewed ledger job moment jobs jobs' missing renewed)
      | inr (r, found) ↦
          let (mine, keyed', found') =
            renewed_row ledger job moment jobs jobs' r keyed found renewed in
          let e = running_of_owns (some job.claim_token) r mine in
          let kept =
            claim_due-not_due ledger now worker limit tokens jobs' keyed' job.job_id
              (renew (moment + ledger.lease) r) found'
              (live_lease now (moment + ledger.lease) r e early) in
          assert_owns_of_found job _ (renew (moment + ledger.lease) r) kept mine
    ]
