-- ===== src/Normalize/Intake.antt =====
-- Every snapshot is used, quarantined or counted as a repeat, once.
use betmaxxing.Prelude.{
  ℕ, ◌+◌, min, String, ◌≡◌, Bool, true, false, none, some, List, [], ◌∷◌, arith, str_eq, length,
  if◌then◌else◌, Bool-cases, Option-cases, inl, inr, All, eq_iff,
}
use betmaxxing.Table.{row_count}
use betmaxxing.Normalize.Defs.{
  OddsSnapshot, QuarantineRecord, is_in, dedup_after, deduplicate, validate, split_usable, intake,
}

abbrev pub by_fingerprint : String → OddsSnapshot → Bool
by_fingerprint k s = str_eq s.fingerprint k

dedup_after-row_count :
    (k : String) (seen : List String) (snapshots : List OddsSnapshot)
    → row_count (by_fingerprint k) (dedup_after seen snapshots).0
      ≡ (if is_in k seen then 0 else min 1 (row_count (by_fingerprint k) snapshots))
unfolding dedup_after row_count
dedup_after-row_count k seen [] = ground arith
dedup_after-row_count k seen (s ∷ snapshots) = elim (Bool-cases (is_in s.fingerprint seen)) [
  | inl again ↦
      let ih = dedup_after-row_count k seen snapshots in
      rw again (elim (Bool-cases (by_fingerprint k s)) [
        | inl same ↦ let there = seen_too again same in ground (arith, ih)
        | inr other ↦ ground (arith, ih)
      ])
  | inr new ↦
      let ih = dedup_after-row_count k (s.fingerprint ∷ seen) snapshots in
      rw new (elim (Bool-cases (by_fingerprint k s)) [
        | inl same ↦ let there = unseen_too new same in ground (arith, ih)
        | inr other ↦ ground (arith, ih)
      ])
]
  where
    seen_too : is_in s.fingerprint seen ≡ true → by_fingerprint k s ≡ true → is_in k seen ≡ true
    seen_too again same = rw (← (eq_iff s.fingerprint k).0 same) again

    unseen_too : is_in s.fingerprint seen ≡ false → by_fingerprint k s ≡ true → is_in k seen ≡ false
    unseen_too new same = rw (← (eq_iff s.fingerprint k).0 same) new

dedup_after-length :
    (seen : List String) (snapshots : List OddsSnapshot)
    → length (dedup_after seen snapshots).0 + (dedup_after seen snapshots).1 ≡ length snapshots
unfolding dedup_after
dedup_after-length seen [] = omega arith
dedup_after-length seen (s ∷ snapshots) = elim (Bool-cases (is_in s.fingerprint seen)) [
  | inl again ↦ rw again (omega (arith, dedup_after-length seen snapshots))
  | inr new ↦ rw new (omega (arith, dedup_after-length (s.fingerprint ∷ seen) snapshots))
]

-- Deduplication keeps exactly one snapshot of each fingerprint that there is, and what it does not
-- keep it counts.
pub deduplicate_keeps_one :
    (snapshots : List OddsSnapshot) (k : String)
    → (row_count (by_fingerprint k) (deduplicate snapshots).0
        ≡ min 1 (row_count (by_fingerprint k) snapshots))
      × (length (deduplicate snapshots).0 + (deduplicate snapshots).1 ≡ length snapshots)
unfolding deduplicate
deduplicate_keeps_one snapshots k =
    (dedup_after-row_count k [] snapshots, dedup_after-length [] snapshots)

-- A quarantined snapshot is kept with the reason that it was refused for.
abbrev pub Refused : ℕ → QuarantineRecord → Type 0
Refused now q = validate q.snapshot now ≡ some q.reason

abbrev pub Usable : ℕ → OddsSnapshot → Type 0
Usable now s = validate s now ≡ none

record Sorted (now : ℕ) (snapshots : List OddsSnapshot)
    (r : List OddsSnapshot × List QuarantineRecord) : Type 0 where
  pub fine : All (Usable now) r.0
  pub refused : All (Refused now) r.1
  pub accounted : length r.0 + length r.1 ≡ length snapshots

split_usable-Sorted :
    (now : ℕ) (snapshots : List OddsSnapshot) → Sorted now snapshots (split_usable now snapshots)
unfolding split_usable
split_usable-Sorted now [] = record { fine = tt; refused = tt; accounted = omega arith }
split_usable-Sorted now (s ∷ snapshots) =
    let h = split_usable-Sorted now snapshots in
    elim (Option-cases (validate s now)) [
      | inl e ↦
          rw (e, split_usable)
            (record {
              fine = (e, h.fine);
              refused = h.refused;
              accounted = omega (arith, h.accounted);
            })
      | inr (reason, e) ↦
          rw (e, split_usable)
            (record {
              fine = h.fine;
              refused = (e, h.refused);
              accounted = omega (arith, h.accounted);
            })
    ]

-- No snapshot is lost silently: those that are usable, those in quarantine and the repeats that were
-- dropped are as many as came in, each usable one passes the validation, and each one in quarantine
-- stands there with the reason for which it fails it.
pub intake_accounts :
    (now : ℕ) (snapshots : List OddsSnapshot)
    → let r = intake now snapshots in
      (length r.usable + length r.quarantined + r.duplicates_dropped ≡ length snapshots)
      × All (Usable now) r.usable
      × All (Refused now) r.quarantined
unfolding intake deduplicate
intake_accounts now snapshots =
    let h = split_usable-Sorted now (dedup_after [] snapshots).0 in
    (omega (arith, h.accounted, dedup_after-length [] snapshots), h.fine, h.refused)
