-- ===== src/Runner/Deadline.antt =====
-- When a job loses its value (`_job_deadline` in src/betmaxxing/scheduler/runner.py).
use betmaxxing.Prelude.{
  ℕ, ◌+◌, ◌≡◌, ◌≢◌, ◌∙◌, refl, sym, ap, String, true, false, Option, none, some, List, arith,
  Bool-cases, Option-cases, inl, inr, str_eq, ◌&&◌, eq_iff, if◌then◌else◌,
}
use betmaxxing.Table.{scalar}
use betmaxxing.Identity.Rows.{EventRow, by_canonical_id}
use betmaxxing.Scheduler.Row.{
  JobType, daily_scan, event_milestone, job_type_eq, is_event_scoped, has_text, ClaimedJob, hours,
}
use betmaxxing.Runner.Defs.{job_deadline, event_start}

-- The instant at which a job loses its value: the kick-off of the event of a milestone, if that event
-- is stored, and otherwise two hours after the instant it was scheduled for.
pub data ValueEnds (events : List EventRow) (job : ClaimedJob) : ℕ → Type 0 where
  at_kick_off :
      (id : String) (event : EventRow)
      → job.job_type ≡ event_milestone
      → job.scope_id ≡ some id
      → scalar (by_canonical_id id) events ≡ some event
      → ValueEnds events job event.start_time_utc
  after_grace :
      ((id : String)
        → job.job_type ≡ event_milestone
        → job.scope_id ≡ some id
        → id ≢ ""
        → scalar (by_canonical_id id) events ≡ none)
      → ValueEnds events job (job.scheduled_for + hours 2)

not_milestone : (t : JobType) → job_type_eq t event_milestone ≡ false → t ≡ event_milestone → ⊥
not_milestone daily_scan e h = cc
not_milestone event_milestone e h = cc

is_milestone : (t : JobType) → job_type_eq t event_milestone ≡ true → t ≡ event_milestone
is_milestone daily_scan e = cc
is_milestone event_milestone e = refl

same_id : (id s : String) → some s ≡ some id → s ≡ id
same_id id s h = cc

-- The deadline that the code computes is that instant.
pub job_deadline-ValueEnds :
    (events : List EventRow) (job : ClaimedJob) → ValueEnds events job (job_deadline events job)
unfolding job_deadline is_event_scoped
job_deadline-ValueEnds events job = by_scope job.job_type job.scope_id refl refl
  where
    otherwise : ℕ
    otherwise = job.scheduled_for + hours 2

    by_scope :
        (t : JobType) (scope : Option String)
        → job.job_type ≡ t
        → job.scope_id ≡ scope
        → ValueEnds events job (
            if job_type_eq t event_milestone && has_text scope
            then elim (event_start events scope) [ none ↦ otherwise | some start ↦ start ]
            else otherwise)
    by_scope daily_scan scope kind named = after_grace (λ id is_event has_scope not_empty. cc)
    by_scope event_milestone none kind named = after_grace (λ id is_event has_scope not_empty. cc)
    by_scope event_milestone (some s) kind named = elim (Bool-cases (str_eq s "")) [
      | inl e ↦ rw e (
          after_grace (λ id is_event has_scope not_empty.
            absurd
              (ground (arith, e, eq_iff s "", same_id id s (sym named ∙ has_scope), not_empty))))
      | inr e ↦ elim (Option-cases (scalar (by_canonical_id s) events)) [
        | inl missing ↦
            rw (e, missing)
              (after_grace (λ id is_event has_scope not_empty.
                ap (λ x. scalar (by_canonical_id x) events)
                  (sym (same_id id s (sym named ∙ has_scope)))
                ∙ missing))
        | inr (event, found) ↦ rw (e, found) (at_kick_off s event kind named found)
      ]
    ]
