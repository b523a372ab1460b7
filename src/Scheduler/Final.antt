-- ===== src/Scheduler/Final.antt =====
-- What survives every call: a final row as it is, and the fact that an occurrence exists.
use betmaxxing.Prelude.{
  ℕ, ◌≡◌, refl, ◌∙◌, String, Bool, true, false, ◌||◌, Option, none, some, List, [], ◌∷◌, arith,
  if◌then◌else◌,
}
use betmaxxing.Table.{scalar, scalar-update, scalar-append}
use betmaxxing.Scheduler.Row.{JobType, SchedulerJobRow, Jobs, by_id, JobLedger}
use betmaxxing.Scheduler.Enqueue.{Digest, same_occurrence}
use betmaxxing.Scheduler.Trace.{Call, run}
use betmaxxing.Scheduler.Moves.{JobsMove, stays, changes, adds, both, Safe, is_final, run-JobsMove}

pub move_final :
    (id : String) (r : SchedulerJobRow) (before after : Jobs)
    → JobsMove before after
    → is_final r.state ≡ true
    → scalar (by_id id) before ≡ some r
    → scalar (by_id id) after ≡ some r
move_final id r _ _ (stays jobs) done h = h
move_final id r _ _ (changes p f jobs safe) done h =
    scalar-update (by_id id) p f (safe.same_id id) jobs ∙ rw (h, safe.spares_final r done) refl
move_final id r _ _ (adds x jobs) done h = scalar-append (by_id id) jobs (x ∷ []) ∙ rw h refl
move_final id r _ _ (both a b c first next) done h =
    move_final id r b c next done (move_final id r a b first done h)

-- A job that succeeded, failed for good or was skipped for the budget is never touched again: from any
-- table, whatever the workers call afterwards, its row is found exactly as it was.
pub final_forever :
    (d : Digest) (ledger : JobLedger) (id : String) (r : SchedulerJobRow) (jobs : Jobs)
    (calls : List Call)
    → is_final r.state ≡ true
    → scalar (by_id id) jobs ≡ some r
    → scalar (by_id id) (run d ledger jobs calls) ≡ some r
final_forever d ledger id r jobs calls done h =
    move_final id r jobs _ (run-JobsMove d ledger jobs calls) done h

abbrev pub is_row : Option SchedulerJobRow → Bool
is_row none = false
is_row (some r) = true

-- A row that a condition on the identity finds is still there.
pub move_found :
    (q : SchedulerJobRow → Bool) (before after : Jobs)
    → ((f : SchedulerJobRow → SchedulerJobRow) (p : SchedulerJobRow → Bool)
        → Safe p f
        → (r : SchedulerJobRow) → q (f r) ≡ q r)
    → JobsMove before after
    → is_row (scalar q before) ≡ true
    → is_row (scalar q after) ≡ true
move_found q _ _ keeps (stays jobs) h = h
move_found q _ _ keeps (changes p f jobs safe) h =
    rw (scalar-update q p f (keeps f p safe) jobs) (still (scalar q jobs) h)
  where
    still :
        (o : Option SchedulerJobRow)
        → is_row o ≡ true
        → is_row (elim o [ none ↦ none | some r ↦ some (if p r then f r else r) ]) ≡ true
    still none e = e
    still (some r) e = e
move_found q _ _ keeps (adds x jobs) h =
    rw (scalar-append q jobs (x ∷ [])) (still (scalar q jobs) h)
  where
    still :
        (o : Option SchedulerJobRow)
        → is_row o ≡ true
        → is_row (elim o [ none ↦ scalar q (x ∷ []) | some r ↦ some r ]) ≡ true
    still none e = cc
    still (some r) e = e
move_found q _ _ keeps (both a b c first next) h =
    move_found q b c keeps next (move_found q a b keeps first h)

-- what makes `enqueue` decline
abbrev pub taken : String → JobType → ℕ → String → Jobs → Bool
taken id job_type when scope jobs =
    is_row (scalar (by_id id) jobs) || is_row (scalar (same_occurrence job_type when scope) jobs)

pub move_taken :
    (id : String) (job_type : JobType) (when : ℕ) (scope : String) (before after : Jobs)
    → JobsMove before after
    → taken id job_type when scope before ≡ true
    → taken id job_type when scope after ≡ true
move_taken id job_type when scope before after move h = ground (
  arith,
  h,
  move_found (by_id id) before after (λ f p safe r. safe.same_id id r) move,
  move_found (same_occurrence job_type when scope) before after
      (λ f p safe r. safe.same_key job_type when scope r) move,
)
