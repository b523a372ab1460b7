-- ===== src/Identity/AliasLaws.antt =====
-- An import of aliases is idempotent and keeps its keys unique.
use betmaxxing.Prelude.{
  ℕ, ◌+◌, ◌≡◌, refl, ap, ◌∙◌, true, Option, none, some, List, [], ◌∷◌, arith, Bool-cases, inl, inr,
  eq_iff, str_eq, str_eq_refl,
}
use betmaxxing.Table.{scalar, scalar-append, append-Keyed, Keyed}
use betmaxxing.Names.Defs.{Python}
use betmaxxing.Identity.Rows.{ParticipantAliasRow}
use betmaxxing.Identity.Alias.{
  AliasRow, AliasKey, AliasProblem, AliasImportReport, alias_problem, of_alias, alias_key,
  stored_alias, import_one, import_valid, import_from, import_aliases, empty_report,
}
use betmaxxing.Identity.AliasCount.{Extends, import_from-Extends}

-- the report of a second import of what the first one reported
abbrev pub replayed : AliasImportReport → AliasImportReport
replayed report = record {
  imported = 0;
  unchanged = report.imported + report.unchanged;
  quarantined = report.quarantined;
}

own_alias : (a : AliasRow) → of_alias (alias_key a) (stored_alias a) ≡ true
own_alias a = ground (arith, str_eq_refl a.sport, str_eq_refl a.source, str_eq_refl a.alias)

-- a report that imported nothing
abbrev tally : List (ℕ × AliasProblem) → ℕ → AliasImportReport
tally q n = record { imported = 0; unchanged = n; quarantined = q }

import_valid-replayed :
    (a : AliasRow) (o : Option ParticipantAliasRow) (report : AliasImportReport)
    (rows later : List ParticipantAliasRow)
    → scalar (of_alias (alias_key a)) rows ≡ o
    → Extends (import_valid a o (report, rows)).1 later
    → import_valid a (scalar (of_alias (alias_key a)) later) (replayed report, later)
      ≡ (replayed (import_valid a o (report, rows)).0, later)
import_valid-replayed a none report rows later e h =
    let there : scalar (of_alias (alias_key a)) later ≡ some (stored_alias a) =
      h (alias_key a) (stored_alias a) (
        scalar-append (of_alias (alias_key a)) rows (stored_alias a ∷ [])
        ∙ rw e (unfold scalar in rw (own_alias a) refl)) in
    rw (there, str_eq_refl a.canonical_participant_id)
      (ap (λ n. (tally report.quarantined n, later)) (omega arith))
import_valid-replayed a (some r) report rows later e h =
    rw (h (alias_key a) r e)
      (elim (Bool-cases (str_eq r.canonical_participant_id a.canonical_participant_id)) [
        | inl same ↦ rw same (ap (λ n. (tally report.quarantined n, later)) (omega arith))
        | inr differs ↦ rw differs refl
      ])

import_one-replayed :
    (a : AliasRow) (o : Option AliasProblem) (report : AliasImportReport)
    (rows later : List ParticipantAliasRow)
    → Extends (import_one a o (report, rows)).1 later
    → import_one a o (replayed report, later) ≡ (replayed (import_one a o (report, rows)).0, later)
import_one-replayed a (some p) report rows later h = refl
import_one-replayed a none report rows later h =
    import_valid-replayed a (scalar (of_alias (alias_key a)) rows) report rows later refl h

import_from-replayed :
    (python : Python) (lines : List AliasRow) (report : AliasImportReport)
    (rows later : List ParticipantAliasRow)
    → Extends (import_from python lines (report, rows)).1 later
    → import_from python lines (replayed report, later)
      ≡ (replayed (import_from python lines (report, rows)).0, later)
unfolding import_from
import_from-replayed python [] report rows later h = refl
import_from-replayed python (a ∷ lines) report rows later h =
    let problem = alias_problem python a in
    let state = import_one a problem (report, rows) in
    ap (import_from python lines) (
      import_one-replayed a problem report rows later
        (λ k s e. h k s (import_from-Extends python lines state.0 state.1 k s e)))
    ∙ import_from-replayed python lines state.0 state.1 later h

-- An import is idempotent: the same lines once more leave the table as it is, import nothing, report as
-- unchanged what was imported or unchanged the first time, and quarantine the same lines for the same
-- reasons.
pub import_aliases_again :
    (python : Python) (lines : List AliasRow) (rows : List ParticipantAliasRow)
    → import_aliases python lines (import_aliases python lines rows).1
      ≡ (replayed (import_aliases python lines rows).0, (import_aliases python lines rows).1)
unfolding import_aliases
import_aliases_again python lines rows =
    import_from-replayed python lines empty_report rows
      (import_from python lines (empty_report, rows)).1 (λ k s e. e)

-- An import never repoints an alias: a row that its sport, source and spelling find before is found
-- unchanged after.
pub import_aliases-Extends :
    (python : Python) (lines : List AliasRow) (rows : List ParticipantAliasRow)
    → Extends rows (import_aliases python lines rows).1
unfolding import_aliases
import_aliases-Extends python lines rows = import_from-Extends python lines empty_report rows

only_key : (a : AliasRow) (k : AliasKey) → of_alias k (stored_alias a) ≡ true → k ≡ alias_key a
only_key a k h =
    ground (arith, h, eq_iff a.sport k.sport, eq_iff a.source k.source, eq_iff a.alias k.alias)

import_one-Keyed :
    (a : AliasRow) (o : Option AliasProblem) (report : AliasImportReport)
    (rows : List ParticipantAliasRow)
    → Keyed of_alias rows
    → Keyed of_alias (import_one a o (report, rows)).1
import_one-Keyed a (some p) report rows h = h
import_one-Keyed a none report rows h = valid (scalar (of_alias (alias_key a)) rows) refl
  where
    valid :
        (o : Option ParticipantAliasRow)
        → scalar (of_alias (alias_key a)) rows ≡ o
        → Keyed of_alias (import_valid a o (report, rows)).1
    valid none free = append-Keyed of_alias (stored_alias a) (alias_key a) rows (only_key a) free h
    valid (some r) e = h

import_from-Keyed :
    (python : Python) (lines : List AliasRow) (report : AliasImportReport)
    (rows : List ParticipantAliasRow)
    → Keyed of_alias rows
    → Keyed of_alias (import_from python lines (report, rows)).1
unfolding import_from
import_from-Keyed python [] report rows h = h
import_from-Keyed python (a ∷ lines) report rows h =
    let state = import_one a (alias_problem python a) (report, rows) in
    import_from-Keyed python lines state.0 state.1
      (import_one-Keyed a (alias_problem python a) report rows h)

pub import_aliases-Keyed :
    (python : Python) (lines : List AliasRow) (rows : List ParticipantAliasRow)
    → Keyed of_alias rows
    → Keyed of_alias (import_aliases python lines rows).1
unfolding import_aliases
import_aliases-Keyed python lines rows = import_from-Keyed python lines empty_report rows
