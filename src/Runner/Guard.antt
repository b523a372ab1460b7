-- ===== src/Runner/Guard.antt =====
-- `LeaseGuard` of src/betmaxxing/scheduler/runner.py: the renewals while a job's work is running, with
-- the calls of other workers between them as an explicit sequence.
use betmaxxing.Prelude.{ℕ, ◌+◌, Bool, true, false, List, [], ◌∷◌, if◌then◌else◌, Result, ok, err}
use betmaxxing.Scheduler.Row.{Jobs, ClaimedJob, JobLedger, LedgerError}
use betmaxxing.Scheduler.Enqueue.{Digest}
use betmaxxing.Scheduler.Complete.{renew_lease, assert_owns}
use betmaxxing.Scheduler.Trace.{Call, apply}

-- The guard's own fields, and the table that its ledger works on. `beating` holds while the renewal
-- thread is alive.
pub record LeaseGuard : Type 0 where
  pub lost : Bool
  pub beating : Bool
  pub renewals : ℕ
  pub jobs : Jobs

-- What a renewal comes to: it reads the clock, or raises something else than a stale lease.
pub data Beat : Type 0 where
  beat_at : ℕ → Beat
  beat_raises : Beat

abbrev pub renewed : LeaseGuard → Result LedgerError Jobs → LeaseGuard
renewed g (ok jobs) = record g { renewals = g.renewals + 1; jobs = jobs }
renewed g (err stale) = record g { lost = true; beating = false }

-- `_renew_once`; a false answer, which ends the thread, is `beating = false`
unfoldable pub renew_once : JobLedger → ClaimedJob → Beat → LeaseGuard → LeaseGuard
renew_once ledger job (beat_at t) g = renewed g (renew_lease ledger job t g.jobs)
renew_once ledger job beat_raises g = record g { beating = false }

abbrev pub new_guard : Jobs → LeaseGuard
new_guard jobs = record { lost = false; beating = false; renewals = 0; jobs = jobs }

-- `__enter__`: one renewal, then the thread starts whatever came of it
unfoldable pub enter_guard : JobLedger → ClaimedJob → Beat → Jobs → LeaseGuard
unfolding renew_once
enter_guard ledger job beat jobs = record (renew_once ledger job beat (new_guard jobs)) {
  beating = true;
}

-- what happens while the work runs
pub data During : Type 0 where
  other : Call → During
  renewal : Beat → During

abbrev pub guard_step : Digest → JobLedger → ClaimedJob → During → LeaseGuard → LeaseGuard
guard_step d ledger job (other c) g = record g { jobs = apply d ledger g.jobs c }
guard_step d ledger job (renewal beat) g = if g.beating then renew_once ledger job beat g else g

-- `_loop`, until `__exit__` joins the thread
unfoldable pub guard_run : Digest → JobLedger → ClaimedJob → List During → LeaseGuard → LeaseGuard
unfolding renew_once
guard_run d ledger job [] g = g
guard_run d ledger job (x ∷ xs) g = guard_run d ledger job xs (guard_step d ledger job x g)

abbrev pub judged : LeaseGuard → Result LedgerError Unit → Bool × LeaseGuard
judged g (ok _) = (true, g)
judged g (err stale) = (false, record g { lost = true })

-- `owns_lease`
unfoldable pub owns_lease : ClaimedJob → LeaseGuard → Bool × LeaseGuard
owns_lease job g = if g.lost then (false, g) else judged g (assert_owns job g.jobs)
