-- ===== src/Scheduler/Ownership.antt =====
-- Who owns a job: completions, renewal and the ownership check accept one claim and refuse others.
use betmaxxing.Prelude.{
  ℕ, String, ◌≡◌, refl, ◌≢◌, Bool, true, false, ◌&&◌, Option, none, some, arith, opt_str_eq,
  opt_str_eq_iff, if◌then◌else◌, ok, err,
}
use betmaxxing.Table.{
  scalar, update, Keyed, row_count-update, scalar-update, row_count_narrow, row_count_narrow_none,
  scalar_sound,
}
use betmaxxing.Scheduler.Row.{
  running, succeeded, state_eq, SchedulerJobRow, Jobs, by_id, ClaimedJob, JobLedger, stale_lease,
}
use betmaxxing.Scheduler.Complete.{
  claimed, owned_by, complete, succeed, mark_succeeded, mark_failed, mark_deferred, mark_skipped,
  renew_lease, assert_owns, get_state,
}

-- what the completion of a found row decides by
abbrev pub owns : Option String → SchedulerJobRow → Bool
owns token r = state_eq r.state running && opt_str_eq r.claim_token token

-- A completion commits exactly if the row is running under the token that is presented.
pub complete_of_found :
    (id : String) (token : Option String) (f : SchedulerJobRow → SchedulerJobRow) (jobs : Jobs)
    {r : SchedulerJobRow}
    → Keyed by_id jobs
    → scalar (by_id id) jobs ≡ some r
    → complete id token f jobs
      ≡ (if owns token r then ok (update (owned_by id token) f jobs) else err stale_lease)
unfolding complete
complete_of_found id token f jobs {r} keyed found =
    rw (row_count_narrow (by_id id) (owns token) jobs (keyed id) found) (ground arith)

pub complete_of_missing :
    (id : String) (token : Option String) (f : SchedulerJobRow → SchedulerJobRow) (jobs : Jobs)
    → scalar (by_id id) jobs ≡ none
    → complete id token f jobs ≡ err stale_lease
unfolding complete
complete_of_missing id token f jobs missing =
    rw (row_count_narrow_none (by_id id) (owns token) jobs missing) refl

-- Every completion, the renewal and the ownership check refuse the claim.
pub record Refused (ledger : JobLedger) (job : ClaimedJob) (jobs : Jobs) : Type 0 where
  pub to_succeed :
      (scan : Option String) (moment : ℕ)
      → mark_succeeded (claimed job) scan moment jobs ≡ err stale_lease
  pub to_fail :
      (error : String) (retryable : Bool) (after : Option ℕ) (moment : ℕ)
      → mark_failed ledger (claimed job) error retryable after moment jobs ≡ err stale_lease
  pub to_defer :
      (reason : String) (next moment : ℕ)
      → mark_deferred (claimed job) reason next moment jobs ≡ err stale_lease
  pub to_skip :
      (reason : String) (moment : ℕ)
      → mark_skipped (claimed job) reason moment jobs ≡ err stale_lease
  pub to_renew : (moment : ℕ) → renew_lease ledger job moment jobs ≡ err stale_lease
  pub to_act : assert_owns job jobs ≡ err stale_lease

pub not_owner-Refused :
    (ledger : JobLedger) (job : ClaimedJob) (jobs : Jobs) {r : SchedulerJobRow}
    → Keyed by_id jobs
    → scalar (by_id job.job_id) jobs ≡ some r
    → owns (some job.claim_token) r ≡ false
    → Refused ledger job jobs
unfolding mark_succeeded mark_failed mark_deferred mark_skipped renew_lease assert_owns
not_owner-Refused ledger job jobs {r} keyed found other = record {
  to_succeed = λ scan moment. refuse _;
  to_fail = λ error retryable after moment. rw (found, mark_failed) (refuse _);
  to_defer = λ reason next moment. refuse _;
  to_skip = λ reason moment. refuse _;
  to_renew = λ moment. refuse _;
  to_act = rw (found, assert_owns) (ground arith);
}
  where
    refuse :
        (f : SchedulerJobRow → SchedulerJobRow)
        → complete job.job_id (some job.claim_token) f jobs ≡ err stale_lease
    refuse f =
        rw (complete_of_found job.job_id (some job.claim_token) f jobs keyed found, other) refl

pub stale_token :
    (job : ClaimedJob) (current : String) (r : SchedulerJobRow)
    → r.claim_token ≡ some current
    → job.claim_token ≢ current
    → owns (some job.claim_token) r ≡ false
stale_token job current r e ne = ground (arith, opt_str_eq_iff r.claim_token (some job.claim_token))

pub assert_owns_of_found :
    (job : ClaimedJob) (jobs : Jobs) (r : SchedulerJobRow)
    → scalar (by_id job.job_id) jobs ≡ some r
    → owns (some job.claim_token) r ≡ true
    → assert_owns job jobs ≡ ok tt
unfolding assert_owns
assert_owns_of_found job jobs r found mine = rw (found, assert_owns) (ground arith)

pub owner :
    (c : ClaimedJob) (r : SchedulerJobRow)
    → r.state ≡ running
    → r.claim_token ≡ some c.claim_token
    → owns (some c.claim_token) r ≡ true
owner c r e t = ground (arith, opt_str_eq_iff r.claim_token (some c.claim_token))

-- A claim that the table records is acknowledged, and is spent by that.
pub owner_finishes :
    (ledger : JobLedger) (c : ClaimedJob) (scan : Option String) (at : ℕ) (jobs : Jobs)
    (r : SchedulerJobRow)
    → Keyed by_id jobs
    → scalar (by_id c.job_id) jobs ≡ some r
    → r.state ≡ running
    → r.claim_token ≡ some c.claim_token
    → (assert_owns c jobs ≡ ok tt)
      × (after : Jobs) × (mark_succeeded (claimed c) scan at jobs ≡ ok after)
      × (get_state c.job_id after ≡ some succeeded)
      × Refused ledger c after
unfolding mark_succeeded assert_owns get_state
owner_finishes ledger c scan at jobs r keyed found is_running token =
    let mine = owner c r is_running token in
    let p = owned_by c.job_id (some c.claim_token) in
    let there = scalar_sound (by_id c.job_id) jobs found in
    let found' : scalar (by_id c.job_id) (update p (succeed at scan) jobs)
        ≡ some (succeed at scan r) =
      rw (scalar-update (by_id c.job_id) p (succeed at scan) (λ x. refl) jobs, found, there, mine)
        refl in
    let keyed' : Keyed by_id (update p (succeed at scan) jobs) =
      λ k. rw (row_count-update (by_id k) p (succeed at scan) (λ x. refl) jobs) (keyed k) in
    (
      assert_owns_of_found c jobs r found mine,
      update p (succeed at scan) jobs,
      rw (complete_of_found c.job_id (some c.claim_token) (succeed at scan) jobs keyed found, mine)
          refl,
      rw (found', get_state) refl,
      not_owner-Refused ledger c _ {r = succeed at scan r} keyed' found' refl,
    )
