-- ===== src/Scheduler/Invariant.antt =====
-- The invariant of the table `scheduler_jobs`, kept by enqueuing, claiming and completing.
use betmaxxing.Prelude.{
  ℕ, suc, ◌+◌, ◌<◌, String, ◌≡◌, refl, Bool, true, ◌||◌, not, Option, none, some, [], ◌∷◌, ◌++◌,
  arith, leb, ◌==◌, All, Bool-cases, Option-cases, inl, inr, Result, ok, err, eq_iff, All-append,
  All-take, All-sort_by, ap,
}
use betmaxxing.Table.{
  scalar, update, row_count, Keyed, row_count-update, All-update, All-select, select_sound,
  keyed_only, append-Keyed, All-both, All-map,
}
use betmaxxing.Scheduler.Row.{
  JobType, SchedulerJobRow, Jobs, by_id, ClaimedJob, max_attempts, JobLedger, LedgerError,
}
use betmaxxing.Scheduler.Enqueue.{
  Digest, enqueue, occurrence_id, pending_row, scope_text, same_occurrence, to_minute,
}
use betmaxxing.Scheduler.Claim.{
  is_due, due_rows, unchanged_since, start, claim_one, claim_rows, claim_due,
}
use betmaxxing.Scheduler.Complete.{
  JobRef, identify, owned_by, complete, succeed, mark_succeeded, fail, mark_failed, defer,
  mark_deferred, skip, mark_skipped, renew, renew_lease,
}
use betmaxxing.Scheduler.States.{
  RowInv, owned-Running, due_room, start-RowInv, succeed-RowInv, fail-RowInv, defer-RowInv,
  skip-RowInv, renew_at,
}

-- The table's rows are sound, and its keys are unique.
abbrev pub Occurrence : Type 0
Occurrence = JobType × ℕ × String

abbrev pub of_occurrence : Occurrence → SchedulerJobRow → Bool
of_occurrence (job_type, when, scope) = same_occurrence job_type when scope

pub record JobsInv (jobs : Jobs) : Type 0 where
  pub rows : All RowInv jobs
  pub ids : Keyed by_id jobs
  pub occurrences : Keyed of_occurrence jobs

update-JobsInv :
    (p : SchedulerJobRow → Bool) (f : SchedulerJobRow → SchedulerJobRow) (jobs : Jobs)
    → ((r : SchedulerJobRow) → p r ≡ true → RowInv r → RowInv (f r))
    → ((id : String) (r : SchedulerJobRow) → by_id id (f r) ≡ by_id id r)
    → ((k : Occurrence) (r : SchedulerJobRow) → of_occurrence k (f r) ≡ of_occurrence k r)
    → JobsInv jobs
    → JobsInv (update p f jobs)
update-JobsInv p f jobs keeps same_id same_key h = record {
  rows = All-update RowInv p f jobs keeps h.rows;
  ids = λ id. rw (row_count-update (by_id id) p f (same_id id) jobs) (h.ids id);
  occurrences =
      λ k. rw (row_count-update (of_occurrence k) p f (same_key k) jobs) (h.occurrences k);
}

-- `J` holds of the table that a call leaves, whether it commits or raises.
abbrev pub Commits : (Jobs → Type 0) → Result LedgerError Jobs → Type 0
Commits J (ok jobs) = J jobs
Commits J (err _) = Unit

complete-JobsInv :
    (id : String) (token : Option String) (f : SchedulerJobRow → SchedulerJobRow) (jobs : Jobs)
    → ((r : SchedulerJobRow) → owned_by id token r ≡ true → RowInv r → RowInv (f r))
    → ((j : String) (r : SchedulerJobRow) → by_id j (f r) ≡ by_id j r)
    → ((k : Occurrence) (r : SchedulerJobRow) → of_occurrence k (f r) ≡ of_occurrence k r)
    → JobsInv jobs
    → Commits JobsInv (complete id token f jobs)
unfolding complete
complete-JobsInv id token f jobs keeps same_id same_key h =
    elim (Bool-cases (row_count (owned_by id token) jobs == 1)) [
      | inl e ↦ rw e (update-JobsInv (owned_by id token) f jobs keeps same_id same_key h)
      | inr e ↦ rw e tt
    ]

-- The claim: every row that the loop visits was due when the query ran.
claim_rows-JobsInv :
    (moment expiry : ℕ) (worker : String) (tokens : ℕ → String) (n : ℕ) (rows jobs : Jobs)
    → All (λ r. r.attempts < max_attempts) rows
    → JobsInv jobs
    → JobsInv (claim_rows moment expiry worker tokens n rows jobs).1
unfolding claim_rows claim_one
claim_rows-JobsInv moment expiry worker tokens n [] jobs room h = h
claim_rows-JobsInv moment expiry worker tokens n (row ∷ rows) jobs room h =
    claim_rows-JobsInv moment expiry worker tokens (suc n) rows _ room.1 (
      update-JobsInv (unchanged_since row) (start moment expiry worker (tokens n) row) jobs
        (λ r e i. start-RowInv moment expiry worker (tokens n) row r room.0) (λ id r. refl)
        (λ k r. refl) h)

due_rows-room :
    (moment limit : ℕ) (jobs : Jobs)
    → All RowInv jobs
    → All (λ r. r.attempts < max_attempts) (due_rows moment limit jobs)
unfolding due_rows
due_rows-room moment limit jobs h = All-take _ limit _ (
    All-sort_by _ _ _ (
      All-map _ _ _ (λ r (e, i). due_room moment r e i)
        (All-both _ _ _ (select_sound (is_due moment) jobs)
          (All-select RowInv (is_due moment) jobs h))))

pub claim_due-JobsInv :
    (ledger : JobLedger) (moment : ℕ) (worker : String) (limit : ℕ) (tokens : ℕ → String)
    (jobs : Jobs)
    → JobsInv jobs
    → JobsInv (claim_due ledger moment worker limit tokens jobs).1
unfolding claim_due
claim_due-JobsInv ledger moment worker limit tokens jobs h =
    claim_rows-JobsInv moment _ worker tokens 0 _ jobs (due_rows-room moment limit jobs h.rows) h

same_id : (k : String) (row : SchedulerJobRow) → by_id k row ≡ true → k ≡ row.job_id
same_id k row e = ground (arith, eq_iff row.job_id k)

key_of : SchedulerJobRow → Occurrence
key_of row = (row.job_type, row.scheduled_for, row.scope_id)

same_key : (k : Occurrence) (row : SchedulerJobRow) → of_occurrence k row ≡ true → k ≡ key_of row
unfolding key_of
same_key (job_type, when, scope) row e = ground (arith, eq_iff row.scope_id scope)

append-JobsInv :
    (row : SchedulerJobRow) (jobs : Jobs)
    → scalar (by_id row.job_id) jobs ≡ none
    → scalar (same_occurrence row.job_type row.scheduled_for row.scope_id) jobs ≡ none
    → RowInv row
    → JobsInv jobs
    → JobsInv (jobs ++ row ∷ [])
unfolding key_of
append-JobsInv row jobs no_id no_key ok_row h = record {
  rows = All-append RowInv jobs (row ∷ []) h.rows (ok_row, tt);
  ids = append-Keyed by_id row row.job_id jobs (λ k e. same_id k row e) no_id h.ids;
  occurrences =
      append-Keyed of_occurrence row (key_of row) jobs (λ k e. same_key k row e) no_key
        h.occurrences;
}

pub enqueue-JobsInv :
    (d : Digest) (job_type : JobType) (scheduled_for : ℕ) (scope_id : Option String) (moment : ℕ)
    (jobs : Jobs)
    → JobsInv jobs
    → JobsInv (enqueue d job_type scheduled_for scope_id moment jobs).1
unfolding enqueue
enqueue-JobsInv d job_type scheduled_for scope_id moment jobs h =
    let scope = scope_text scope_id in
    let when = to_minute scheduled_for in
    let id = occurrence_id d job_type when scope in
    elim (Option-cases (scalar (by_id id) jobs)) [
      | inr (r, e) ↦ rw e h
      | inl no_id ↦ elim (Option-cases (scalar (same_occurrence job_type when scope) jobs)) [
        | inr (r, e) ↦ rw (no_id, e) h
        | inl no_key ↦
            rw (no_id, no_key)
              (append-JobsInv (pending_row id job_type when scope moment) jobs no_id no_key
                (record { within = omega arith; by_state = (refl, refl, refl) }) h)
      ]
    ]

pub mark_succeeded-JobsInv :
    (job : JobRef) (scan_id : Option String) (moment : ℕ) (jobs : Jobs)
    → JobsInv jobs
    → Commits JobsInv (mark_succeeded job scan_id moment jobs)
unfolding mark_succeeded
mark_succeeded-JobsInv job scan_id moment jobs h =
    complete-JobsInv (identify job).0 (identify job).1 (succeed moment scan_id) jobs
      (λ r e i. succeed-RowInv moment scan_id r i) (λ j r. refl) (λ k r. refl) h

abbrev Read : String → SchedulerJobRow → SchedulerJobRow → Type 0
Read id row r = RowInv r × (by_id id r ≡ true → r.attempts ≡ row.attempts)

-- `mark_failed` reads the attempts of the row that it then changes.
fail_row-JobsInv :
    (id : String) (token : Option String) (row : SchedulerJobRow) (moment : ℕ) (error : String)
    (retryable : Bool) (backoff : ℕ) (jobs : Jobs)
    → scalar (by_id id) jobs ≡ some row
    → JobsInv jobs
    → Commits JobsInv (
        complete id token
          (fail moment error (not retryable || leb max_attempts row.attempts) backoff)
          jobs)
unfolding complete
fail_row-JobsInv id token row moment error retryable backoff jobs found h =
    let final = not retryable || leb max_attempts row.attempts in
    let only = keyed_only (by_id id) jobs row (h.ids id) found in
    elim (Bool-cases (row_count (owned_by id token) jobs == 1)) [
      | inr e ↦ rw e tt
      | inl e ↦ rw e (record {
        rows =
            All-map (Read id row) RowInv _ (λ r k. k.0)
              (All-update (Read id row) _ (fail moment error final backoff) jobs
                (λ r o k.
                  let (inv, same) = k in
                  let n = same (ground arith) in
                  (
                    rw (← n) (
                        fail-RowInv moment error retryable backoff r
                          (owned-Running id token r o inv) inv),
                    same,
                  ))
                (All-both RowInv _ jobs h.rows (
                  All-map _ _ jobs (λ r f t. ap (λ (x : SchedulerJobRow). x.attempts) (f t))
                    only)));
        ids = λ j.
            rw (row_count-update (by_id j) _ (fail moment error final backoff) (λ r. refl) jobs)
              (h.ids j);
        occurrences = λ k.
            rw
              (row_count-update (of_occurrence k) _ (fail moment error final backoff) (λ r. refl)
                jobs)
              (h.occurrences k);
      })
    ]

pub mark_failed-JobsInv :
    (ledger : JobLedger) (job : JobRef) (error : String) (retryable : Bool) (retry_after : Option ℕ)
    (moment : ℕ) (jobs : Jobs)
    → JobsInv jobs
    → Commits JobsInv (mark_failed ledger job error retryable retry_after moment jobs)
unfolding mark_failed
mark_failed-JobsInv ledger job error retryable retry_after moment jobs h =
    let id = (identify job).0 in
    elim (Option-cases (scalar (by_id id) jobs)) [
      | inl e ↦ rw (e, Commits) tt
      | inr (row, e) ↦
          rw (e, Commits)
            (fail_row-JobsInv id (identify job).1 row moment error retryable _ jobs e h)
    ]

pub mark_deferred-JobsInv :
    (job : JobRef) (reason : String) (next moment : ℕ) (jobs : Jobs)
    → JobsInv jobs
    → Commits JobsInv (mark_deferred job reason next moment jobs)
unfolding mark_deferred
mark_deferred-JobsInv job reason next moment jobs h =
    let (id, token) = identify job in
    complete-JobsInv id token (defer moment reason next) jobs
      (λ r e i. defer-RowInv moment reason next r (owned-Running id token r e i) i) (λ j r. refl)
      (λ k r. refl) h

pub mark_skipped-JobsInv :
    (job : JobRef) (reason : String) (moment : ℕ) (jobs : Jobs)
    → JobsInv jobs
    → Commits JobsInv (mark_skipped job reason moment jobs)
unfolding mark_skipped
mark_skipped-JobsInv job reason moment jobs h =
    complete-JobsInv (identify job).0 (identify job).1 (skip moment reason) jobs
      (λ r e i. skip-RowInv moment reason r i) (λ j r. refl) (λ k r. refl) h

pub renew_lease-JobsInv :
    (ledger : JobLedger) (job : ClaimedJob) (moment : ℕ) (jobs : Jobs)
    → JobsInv jobs
    → Commits JobsInv (renew_lease ledger job moment jobs)
unfolding renew_lease
renew_lease-JobsInv ledger job moment jobs h =
    complete-JobsInv job.job_id (some job.claim_token) (renew (moment + ledger.lease)) jobs
      (λ r e i. record {
        within = i.within;
        by_state = renew_at r.state _ r (ground arith) i.by_state;
      })
      (λ j r. refl) (λ k r. refl) h
