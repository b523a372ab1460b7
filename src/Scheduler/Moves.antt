-- ===== src/Scheduler/Moves.antt =====
-- What the ledger's calls do to the table as a whole: rows are added or changed, none is deleted, none
-- changes its id or its occurrence, and a row that has reached a final state is never changed.
use betmaxxing.Prelude.{
  ℕ, suc, ◌+◌, ◌≡◌, refl, sym, ◌∙◌, String, Bool, true, false, Option, some, List, [], ◌∷◌, ◌++◌,
  arith, Bool-cases, Option-cases, inl, inr, All, All-take, All-sort_by, ◌==◌,
}
use betmaxxing.Table.{scalar, update, row_count, select_sound, All-map}
use betmaxxing.Scheduler.Row.{
  JobState, pending, running, succeeded, failed_retryable, failed_final, deferred, skipped_budget,
  JobType, state_eq, SchedulerJobRow, Jobs, by_id, JobLedger,
}
use betmaxxing.Scheduler.Enqueue.{
  Digest, enqueue, occurrence_id, scope_text, same_occurrence, to_minute,
}
use betmaxxing.Scheduler.Claim.{
  is_due, open_to_claim, due_rows, unchanged_since, start, claim_one, claim_rows, claim_due,
}
use betmaxxing.Scheduler.Complete.{
  identify, owned_by, complete, succeed, mark_succeeded, mark_failed, defer, mark_deferred, skip,
  mark_skipped, renew, renew_lease,
}
use betmaxxing.Scheduler.Trace.{
  Call, call_enqueue, call_claim, call_succeeded, call_failed, call_deferred, call_skipped,
  call_renew, committed, apply, run,
}

-- the states that nothing leads out of
abbrev pub is_final : JobState → Bool
is_final succeeded = true
is_final failed_final = true
is_final skipped_budget = true
is_final _ = false

-- A change of rows that keeps what identifies them, and touches no final row.
pub record Safe (p : SchedulerJobRow → Bool) (f : SchedulerJobRow → SchedulerJobRow) : Type 0 where
  pub same_id : (id : String) (r : SchedulerJobRow) → by_id id (f r) ≡ by_id id r
  pub same_key :
      (t : JobType) (at : ℕ) (scope : String) (r : SchedulerJobRow)
      → same_occurrence t at scope (f r) ≡ same_occurrence t at scope r
  pub spares_final : (r : SchedulerJobRow) → is_final r.state ≡ true → p r ≡ false

pub data JobsMove : Jobs → Jobs → Type 0 where
  stays : (jobs : Jobs) → JobsMove jobs jobs
  changes :
      (p : SchedulerJobRow → Bool) (f : SchedulerJobRow → SchedulerJobRow) (jobs : Jobs)
      → Safe p f
      → JobsMove jobs (update p f jobs)
  adds : (r : SchedulerJobRow) (jobs : Jobs) → JobsMove jobs (jobs ++ r ∷ [])
  both : (a b c : Jobs) → JobsMove a b → JobsMove b c → JobsMove a c

owned-Safe :
    (id : String) (token : Option String) (f : SchedulerJobRow → SchedulerJobRow)
    → ((j : String) (r : SchedulerJobRow) → by_id j (f r) ≡ by_id j r)
    → ((t : JobType) (at : ℕ) (scope : String) (r : SchedulerJobRow)
        → same_occurrence t at scope (f r) ≡ same_occurrence t at scope r)
    → Safe (owned_by id token) f
owned-Safe id token f ids keys = record {
  same_id = ids;
  same_key = keys;
  spares_final = λ r e. spared r.state r e;
}
  where
    not_running : (s : JobState) → is_final s ≡ true → state_eq s running ≡ false
    not_running pending e = cc
    not_running running e = cc
    not_running succeeded e = refl
    not_running failed_retryable e = cc
    not_running failed_final e = refl
    not_running deferred e = cc
    not_running skipped_budget e = refl

    spared :
        (s : JobState) (r : SchedulerJobRow) → is_final r.state ≡ true → owned_by id token r ≡ false
    spared s r e = ground (arith, not_running r.state e)

complete-JobsMove :
    (id : String) (token : Option String) (f : SchedulerJobRow → SchedulerJobRow) (jobs : Jobs)
    → Safe (owned_by id token) f
    → JobsMove jobs (committed jobs (complete id token f jobs))
unfolding complete
complete-JobsMove id token f jobs safe =
    elim (Bool-cases (row_count (owned_by id token) jobs == 1)) [
      | inl e ↦ rw e (changes (owned_by id token) f jobs safe)
      | inr e ↦ rw e (stays jobs)
    ]

due_not_final :
    (moment : ℕ) (r : SchedulerJobRow) → is_due moment r ≡ true → is_final r.state ≡ false
unfolding is_due
due_not_final moment r e = by_state r.state (ground arith)
  where
    by_state : (s : JobState) → open_to_claim s moment r ≡ true → is_final s ≡ false
    by_state pending h = refl
    by_state running h = refl
    by_state failed_retryable h = refl
    by_state deferred h = refl
    by_state succeeded h = cc
    by_state failed_final h = cc
    by_state skipped_budget h = cc

same_state : (s t : JobState) → state_eq s t ≡ true → is_final s ≡ is_final t
same_state pending t h = ground arith
same_state running t h = ground arith
same_state succeeded t h = ground arith
same_state failed_retryable t h = ground arith
same_state failed_final t h = ground arith
same_state deferred t h = ground arith
same_state skipped_budget t h = ground arith

claim_one-Safe :
    (moment expiry : ℕ) (worker token : String) (row : SchedulerJobRow)
    → is_final row.state ≡ false
    → Safe (unchanged_since row) (start moment expiry worker token row)
claim_one-Safe moment expiry worker token row h = record {
  same_id = λ id r. refl;
  same_key = λ t at scope r. refl;
  spares_final = spared;
}
  where
    spared : (r : SchedulerJobRow) → is_final r.state ≡ true → unchanged_since row r ≡ false
    spared r e = elim (Bool-cases (state_eq r.state row.state)) [
      | inr other ↦ ground (arith, other)
      | inl same ↦
          let agree = same_state r.state row.state same in
          let clash : true ≡ false = sym e ∙ agree ∙ h in absurd (cc)
    ]

claim_rows-JobsMove :
    (moment expiry : ℕ) (worker : String) (tokens : ℕ → String) (n : ℕ) (rows jobs : Jobs)
    → All (λ r. is_final r.state ≡ false) rows
    → JobsMove jobs (claim_rows moment expiry worker tokens n rows jobs).1
unfolding claim_rows claim_one
claim_rows-JobsMove moment expiry worker tokens n [] jobs h = stays jobs
claim_rows-JobsMove moment expiry worker tokens n (row ∷ rows) jobs h =
    both _ _ _ (changes _ _ jobs (claim_one-Safe moment expiry worker (tokens n) row h.0))
      (claim_rows-JobsMove moment expiry worker tokens (suc n) rows _ h.1)

claim_due-JobsMove :
    (ledger : JobLedger) (moment : ℕ) (worker : String) (limit : ℕ) (tokens : ℕ → String)
    (jobs : Jobs)
    → JobsMove jobs (claim_due ledger moment worker limit tokens jobs).1
unfolding claim_due due_rows
claim_due-JobsMove ledger moment worker limit tokens jobs =
    claim_rows-JobsMove moment _ worker tokens 0 _ jobs (
      All-take _ limit _ (
        All-sort_by _ _ _
          (All-map _ _ _ (λ r e. due_not_final moment r e) (select_sound (is_due moment) jobs))))

pub enqueue-JobsMove :
    (d : Digest) (job_type : JobType) (scheduled_for : ℕ) (scope_id : Option String) (moment : ℕ)
    (jobs : Jobs)
    → JobsMove jobs (enqueue d job_type scheduled_for scope_id moment jobs).1
unfolding enqueue
enqueue-JobsMove d job_type scheduled_for scope_id moment jobs =
    let scope = scope_text scope_id in
    let when = to_minute scheduled_for in
    elim (Option-cases (scalar (by_id (occurrence_id d job_type when scope)) jobs)) [
      | inr (r, e) ↦ rw e (stays jobs)
      | inl no_id ↦ elim (Option-cases (scalar (same_occurrence job_type when scope) jobs)) [
        | inr (r, e) ↦ rw (no_id, e) (stays jobs)
        | inl no_key ↦ rw (no_id, no_key) (adds _ jobs)
      ]
    ]

-- One call of any worker is such a move.
pub apply-JobsMove :
    (d : Digest) (ledger : JobLedger) (jobs : Jobs) (c : Call)
    → JobsMove jobs (apply d ledger jobs c)
unfolding apply mark_succeeded mark_failed mark_deferred mark_skipped renew_lease
apply-JobsMove d ledger jobs (call_enqueue t at s m) = enqueue-JobsMove d t at s m jobs
apply-JobsMove d ledger jobs (call_claim m w l t) = claim_due-JobsMove ledger m w l t jobs
apply-JobsMove d ledger jobs (call_succeeded j s m) =
    complete-JobsMove (identify j).0 (identify j).1 (succeed m s) jobs
      (owned-Safe _ _ _ (λ i r. refl) (λ t at s r. refl))
apply-JobsMove d ledger jobs (call_failed j e retryable a m) =
    elim (Option-cases (scalar (by_id (identify j).0) jobs)) [
      | inl missing ↦ rw (missing, committed) (stays jobs)
      | inr (row, found) ↦
          rw (found, committed)
            (complete-JobsMove (identify j).0 (identify j).1 _ jobs
              (owned-Safe _ _ _ (λ i r. refl) (λ t at s r. refl)))
    ]
apply-JobsMove d ledger jobs (call_deferred j r n m) =
    complete-JobsMove (identify j).0 (identify j).1 (defer m r n) jobs
      (owned-Safe _ _ _ (λ i r. refl) (λ t at s r. refl))
apply-JobsMove d ledger jobs (call_skipped j r m) =
    complete-JobsMove (identify j).0 (identify j).1 (skip m r) jobs
      (owned-Safe _ _ _ (λ i r. refl) (λ t at s r. refl))
apply-JobsMove d ledger jobs (call_renew j m) =
    complete-JobsMove j.job_id (some j.claim_token) (renew (m + ledger.lease)) jobs
      (owned-Safe _ _ _ (λ i r. refl) (λ t at s r. refl))

pub run-JobsMove :
    (d : Digest) (ledger : JobLedger) (jobs : Jobs) (calls : List Call)
    → JobsMove jobs (run d ledger jobs calls)
unfolding run
run-JobsMove d ledger jobs [] = stays jobs
run-JobsMove d ledger jobs (c ∷ calls) =
    both jobs _ _ (apply-JobsMove d ledger jobs c)
      (run-JobsMove d ledger (apply d ledger jobs c) calls)
