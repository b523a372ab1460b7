-- ===== src/Scheduler/States.antt =====
-- What a row of `scheduler_jobs` satisfies in each state, and that each change of a row keeps it.
use betmaxxing.Prelude.{
  ℕ, ◌≤◌, ◌<◌, String, ◌≡◌, refl, ◌≢◌, Bool, true, false, ◌||◌, not, Option, none, arith, leb,
  Bool-cases, inl, inr,
}
use betmaxxing.Scheduler.Row.{
  JobState, pending, running, succeeded, failed_retryable, failed_final, deferred, skipped_budget,
  state_eq, SchedulerJobRow, max_attempts,
}
use betmaxxing.Scheduler.Claim.{is_due, open_to_claim, start}
use betmaxxing.Scheduler.Complete.{owned_by, succeed, fail, defer, skip, renew}

-- A claimed row has a token and a lease, any other has neither; a row that waits to be claimed
-- has room for one more attempt.
abbrev pub StateInv : JobState → SchedulerJobRow → Type 0
StateInv pending r = (r.attempts ≡ 0) × (r.claim_token ≡ none) × (r.lease_expires_at ≡ none)
StateInv running r =
    (1 ≤ r.attempts)
    × (r.claim_token ≢ none)
    × (r.lease_expires_at ≢ none)
    × (r.next_attempt_at ≡ none)
StateInv failed_retryable r =
    (1 ≤ r.attempts)
    × (r.attempts < max_attempts)
    × (r.claim_token ≡ none)
    × (r.lease_expires_at ≡ none)
    × (r.next_attempt_at ≢ none)
StateInv deferred r =
    (r.attempts < max_attempts)
    × (r.claim_token ≡ none)
    × (r.lease_expires_at ≡ none)
    × (r.next_attempt_at ≢ none)
StateInv _ r = (r.claim_token ≡ none) × (r.lease_expires_at ≡ none) × (r.next_attempt_at ≡ none)

pub record RowInv (r : SchedulerJobRow) : Type 0 where
  pub within : r.attempts ≤ max_attempts
  pub by_state : StateInv r.state r

-- What a transition out of `running` may rely on.
abbrev pub Running : SchedulerJobRow → Type 0
Running r = (1 ≤ r.attempts) × (r.claim_token ≢ none) × (r.next_attempt_at ≡ none)

pub running_at :
    (s : JobState) (r : SchedulerJobRow) → state_eq s running ≡ true → StateInv s r → Running r
running_at running r e h = (h.0, h.1, h.3)
running_at pending r e h = cc
running_at succeeded r e h = cc
running_at failed_retryable r e h = cc
running_at failed_final r e h = cc
running_at deferred r e h = cc
running_at skipped_budget r e h = cc

pub owned-Running :
    (id : String) (token : Option String) (r : SchedulerJobRow)
    → owned_by id token r ≡ true
    → RowInv r
    → Running r
owned-Running id token r e h = running_at r.state r (ground arith) h.by_state

pub room_at :
    (s : JobState) (moment : ℕ) (r : SchedulerJobRow)
    → open_to_claim s moment r ≡ true
    → StateInv s r
    → r.attempts < max_attempts
room_at pending moment r e h = ground arith
room_at deferred moment r e h = ground arith
room_at failed_retryable moment r e h = ground arith
room_at running moment r e h = ground arith
room_at succeeded moment r e h = cc
room_at failed_final moment r e h = cc
room_at skipped_budget moment r e h = cc

-- A row that the claim query returns has room for the attempt that the claim adds.
pub due_room :
    (moment : ℕ) (r : SchedulerJobRow)
    → is_due moment r ≡ true
    → RowInv r
    → r.attempts < max_attempts
unfolding is_due
due_room moment r e h = room_at r.state moment r (ground arith) h.by_state

pub start-RowInv :
    (moment expiry : ℕ) (worker token : String) (row r : SchedulerJobRow)
    → row.attempts < max_attempts
    → RowInv (start moment expiry worker token row r)
start-RowInv moment expiry worker token row r h = record {
  within = omega arith;
  by_state = (omega arith, (λ e. cc), (λ e. cc), refl);
}

pub succeed-RowInv :
    (moment : ℕ) (scan : Option String) (r : SchedulerJobRow)
    → RowInv r
    → RowInv (succeed moment scan r)
succeed-RowInv moment scan r h = record { within = h.within; by_state = (refl, refl, refl) }

-- `mark_failed` decides by the attempts that it read: they are those of the row that it changes.
pub fail-RowInv :
    (moment : ℕ) (error : String) (retryable : Bool) (backoff : ℕ) (r : SchedulerJobRow)
    → Running r
    → RowInv r
    → RowInv (fail moment error (not retryable || leb max_attempts r.attempts) backoff r)
fail-RowInv moment error false backoff r run h = record {
  within = h.within;
  by_state = (refl, refl, refl);
}
fail-RowInv moment error true backoff r run h = elim (Bool-cases (leb max_attempts r.attempts)) [
  | inl e ↦ rw e (record { within = h.within; by_state = (refl, refl, refl) })
  | inr e ↦
      rw e (record { within = h.within; by_state = (run.0, ground arith, refl, refl, (λ e. cc)) })
]

pub defer-RowInv :
    (moment : ℕ) (reason : String) (next : ℕ) (r : SchedulerJobRow)
    → Running r
    → RowInv r
    → RowInv (defer moment reason next r)
defer-RowInv moment reason next r run h = record {
  within = omega (arith, h.within);
  by_state = (omega (arith, h.within, run.0), refl, refl, (λ e. cc));
}

pub skip-RowInv :
    (moment : ℕ) (reason : String) (r : SchedulerJobRow) → RowInv r → RowInv (skip moment reason r)
skip-RowInv moment reason r h = record {
  within = omega (arith, h.within);
  by_state = (refl, refl, refl);
}

pub renew_at :
    (s : JobState) (expiry : ℕ) (r : SchedulerJobRow)
    → state_eq s running ≡ true
    → StateInv s r
    → StateInv s (renew expiry r)
renew_at running expiry r e h = (h.0, h.1, (λ x. cc), h.3)
renew_at pending expiry r e h = cc
renew_at succeeded expiry r e h = cc
renew_at failed_retryable expiry r e h = cc
renew_at failed_final expiry r e h = cc
renew_at deferred expiry r e h = cc
renew_at skipped_budget expiry r e h = cc
