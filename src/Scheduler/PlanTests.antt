-- ===== src/Scheduler/PlanTests.antt =====
-- The theorems on planning and on final rows at concrete plans.
use Prim.Native.Char.{code}
use Prim.Native.String.{◌++◌ as text_append}
use text.Mathlib.TextLemmas.{cons-append, nil-append, append_assoc, append_cancel_left}
use betmaxxing.Prelude.{
  Bool, true, false, ℕ, zero, suc, ◌/◌, String, sym, ap, ◌∙◌, arith, ◌+◌, ◌*◌, ◌≡◌, refl, none,
  some, List, [], ◌∷◌, ok, ◌==◌, if◌then◌else◌,
}
use betmaxxing.Prelude.Int.{pos}
use betmaxxing.Table.{scalar}
use betmaxxing.Scheduler.Row.{
  daily_scan, succeeded, SchedulerJobRow, by_id, JobLedger, minutes, hours,
}
use betmaxxing.Scheduler.Enqueue.{Digest, to_minute, pending_row, enqueue, occurrence_id}
use betmaxxing.Scheduler.Trace.{Call, call_enqueue, call_claim, run}
use betmaxxing.Scheduler.Final.{final_forever}
use betmaxxing.Scheduler.Materialise.{
  Calendar, Plan, materialise, plan_entry, partition_colon, days_and_times, daily_pass,
  milestone_pass,
}
use betmaxxing.Scheduler.Planning.{materialise_again}
use betmaxxing.Scheduler.Planned.{Complete, materialise-Complete}
use betmaxxing.Scheduler.Occurrence.{Faithful}
use betmaxxing.Scheduler.OwnIds.{run-OwnId}
use betmaxxing.Scheduler.Replan.{nothing_new}

abbrev ledger : JobLedger
ledger = record { lease = minutes 10; retry_backoff = minutes 2 }

-- an instant is printed by its number of minutes, in unary
abbrev digest : Digest
digest = record { sha256_32 = λ s. s; isoformat = λ t. if t == hours 240 then "now" else "later" }

-- every entry reads as 8:08, which is the planning instant's time of day
abbrev calendar : Calendar
calendar = record {
  read_int = λ s. some (pos 8);
  instant_at = λ now k hour minute. some (now + hours (24 * k));
}

abbrev plan : Plan
plan = record {
  now = hours 240;
  daily_times = "08:08" ∷ [];
  milestones = ("e1", hours 241) ∷ ("e2", hours 1) ∷ [];
  horizon = hours 24;
  catchup_grace = hours 2;
}

-- two days are in the window, and one milestone of two
three_created : (materialise digest calendar plan []).0 ≡ ok 3
unfolding materialise plan_entry partition_colon days_and_times daily_pass milestone_pass enqueue
    occurrence_id scalar
three_created = refl

abbrev meanwhile : List Call
meanwhile = call_claim (hours 240) "w" 1 (λ n. "t") ∷ call_enqueue daily_scan 0 none 0 ∷ []

materialise_again_example :
    materialise digest calendar plan
      (run digest ledger (materialise digest calendar plan []).1 meanwhile)
    ≡ (
      nothing_new (materialise digest calendar plan []).0,
      run digest ledger (materialise digest calendar plan []).1 meanwhile,
    )
materialise_again_example = materialise_again digest calendar plan ledger [] meanwhile

-- an instant is printed in unary, by its minutes
unfoldable tally : ℕ → String
tally zero = ""
tally (suc n) = text_append "i" (tally n)

begins_i : String → Bool
begins_i String.[] = false
begins_i (String.◌∷◌ c s) = code c == 105

begins_bar : (x : String) → begins_i (text_append (tally 0) (text_append "|" x)) ≡ false
unfolding tally begins_i
begins_bar x = ap begins_i (nil-append (text_append "|" x)) ∙ ap begins_i (cons-append _ "" x)

one_more :
    (n : ℕ) (z : String) → text_append (tally (suc n)) z ≡ text_append "i" (text_append (tally n) z)
unfolding tally
one_more n z = append_assoc "i" (tally n) z

begins_more : (n : ℕ) (z : String) → begins_i (text_append (tally (suc n)) z) ≡ true
unfolding begins_i
begins_more n z =
    ap begins_i (one_more n z) ∙ ap begins_i (cons-append _ "" (text_append (tally n) z))

tally_reads :
    (m n : ℕ) (x y : String)
    → text_append (tally m) (text_append "|" x) ≡ text_append (tally n) (text_append "|" y)
    → m ≡ n
tally_reads zero zero x y h = refl
tally_reads zero (suc n) x y h =
    let clash : false ≡ true =
      sym (begins_bar x) ∙ ap begins_i h ∙ begins_more n (text_append "|" y) in
    absurd (cc)
tally_reads (suc m) zero x y h =
    let clash : true ≡ false =
      sym (begins_more m (text_append "|" x)) ∙ ap begins_i h ∙ begins_bar y in
    absurd (cc)
tally_reads (suc m) (suc n) x y h =
    let rest =
      append_cancel_left "i" _ _
        (sym (one_more m (text_append "|" x)) ∙ h ∙ one_more n (text_append "|" y)) in
    ap suc (tally_reads m n x y rest)

abbrev unary : Digest
unary = record { sha256_32 = λ s. s; isoformat = λ t. tally (t / minutes 1) }

unary-Faithful : Faithful unary
unary-Faithful = record {
  no_collision = λ x y e. e;
  instants = λ a b x y h.
      whole a b (tally_reads (to_minute a / minutes 1) (to_minute b / minutes 1) x y h);
}
  where
    whole :
        (a b : ℕ) → to_minute a / minutes 1 ≡ to_minute b / minutes 1 → to_minute a ≡ to_minute b
    whole a b e = omega arith

-- a plan soon after the first instant
abbrev early_plan : Plan
early_plan = record plan {
  now = hours 1;
  milestones = ("e1", hours 2) ∷ ("e2", 0) ∷ [];
  catchup_grace = minutes 30;
}

-- a table that calls have led to: one of the day's scans is there, and was claimed
abbrev earlier : List Call
earlier = call_enqueue daily_scan (hours 1) none 0 ∷ call_claim (hours 1) "w" 1 (λ n. "t") ∷ []

materialise-Complete_example :
    Complete calendar early_plan
      (materialise unary calendar early_plan (run unary ledger [] earlier)).1
unfolding materialise plan_entry partition_colon days_and_times daily_pass milestone_pass enqueue
    occurrence_id scalar
materialise-Complete_example =
    materialise-Complete unary calendar early_plan (run unary ledger [] earlier) unary-Faithful
      (run-OwnId unary ledger [] earlier tt) refl

abbrev done : SchedulerJobRow
done = record (pending_row "a" daily_scan 0 "" 0) { state = succeeded }

done_found : scalar (by_id "a") (done ∷ []) ≡ some done
unfolding scalar
done_found = refl

final_forever_example : scalar (by_id "a") (run digest ledger (done ∷ []) meanwhile) ≡ some done
final_forever_example = final_forever digest ledger "a" done (done ∷ []) meanwhile refl done_found
