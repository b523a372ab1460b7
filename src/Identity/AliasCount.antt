-- ===== src/Identity/AliasCount.antt =====
-- What an import of aliases keeps, and that it accounts for every line.
use betmaxxing.Prelude.{
  ℕ, suc, ◌+◌, ◌≡◌, refl, Option, none, some, List, [], ◌∷◌, ◌++◌, arith, Bool-cases, inl, inr,
  str_eq, length, length-append,
}
use betmaxxing.Table.{scalar, scalar-append}
use betmaxxing.Names.Defs.{Python}
use betmaxxing.Identity.Rows.{ParticipantAliasRow}
use betmaxxing.Identity.Alias.{
  AliasRow, AliasKey, AliasProblem, AliasImportReport, alias_problem, of_alias, alias_key,
  stored_alias, import_one, import_valid, import_from, import_aliases, empty_report, quarantine,
}

-- A stored alias stays the one that its key finds.
abbrev pub Extends : List ParticipantAliasRow → List ParticipantAliasRow → Type 0
Extends before after =
    (k : AliasKey) (r : ParticipantAliasRow)
    → scalar (of_alias k) before ≡ some r
    → scalar (of_alias k) after ≡ some r

pub append-Extends :
    (rows : List ParticipantAliasRow) (r : ParticipantAliasRow) → Extends rows (rows ++ r ∷ [])
append-Extends rows r k s h = rw (scalar-append (of_alias k) rows (r ∷ []), h) refl

pub import_valid-Extends :
    (a : AliasRow) (o : Option ParticipantAliasRow) (report : AliasImportReport)
    (rows : List ParticipantAliasRow)
    → Extends rows (import_valid a o (report, rows)).1
import_valid-Extends a none report rows = append-Extends rows (stored_alias a)
import_valid-Extends a (some r) report rows = λ k s h. h

pub import_one-Extends :
    (a : AliasRow) (o : Option AliasProblem) (report : AliasImportReport)
    (rows : List ParticipantAliasRow)
    → Extends rows (import_one a o (report, rows)).1
import_one-Extends a (some p) report rows = λ k s h. h
import_one-Extends a none report rows =
    import_valid-Extends a (scalar (of_alias (alias_key a)) rows) report rows

pub import_from-Extends :
    (python : Python) (lines : List AliasRow) (report : AliasImportReport)
    (rows : List ParticipantAliasRow)
    → Extends rows (import_from python lines (report, rows)).1
unfolding import_from
import_from-Extends python [] report rows = λ k s h. h
import_from-Extends python (a ∷ lines) report rows = λ k s h.
    let state = import_one a (alias_problem python a) (report, rows) in
    import_from-Extends python lines state.0 state.1 k s
      (import_one-Extends a (alias_problem python a) report rows k s h)

-- the lines that a report accounts for
abbrev pub accounted : AliasImportReport → ℕ
accounted report = report.imported + report.unchanged + length report.quarantined

pub quarantine-accounted :
    (line : ℕ) (p : AliasProblem) (report : AliasImportReport)
    → accounted (quarantine line p report) ≡ suc (accounted report)
quarantine-accounted line p report =
    omega (arith, length-append report.quarantined ((line, p) ∷ []))

pub import_valid-accounted :
    (a : AliasRow) (o : Option ParticipantAliasRow) (report : AliasImportReport)
    (rows : List ParticipantAliasRow)
    → accounted (import_valid a o (report, rows)).0 ≡ suc (accounted report)
import_valid-accounted a none report rows = omega arith
import_valid-accounted a (some r) report rows =
    elim (Bool-cases (str_eq r.canonical_participant_id a.canonical_participant_id)) [
      | inl same ↦ rw same (omega arith)
      | inr differs ↦ rw differs (quarantine-accounted a.line AliasProblem.contradiction report)
    ]

pub import_one-accounted :
    (a : AliasRow) (o : Option AliasProblem) (report : AliasImportReport)
    (rows : List ParticipantAliasRow)
    → accounted (import_one a o (report, rows)).0 ≡ suc (accounted report)
import_one-accounted a (some p) report rows = quarantine-accounted a.line p report
import_one-accounted a none report rows =
    import_valid-accounted a (scalar (of_alias (alias_key a)) rows) report rows

pub import_from-accounted :
    (python : Python) (lines : List AliasRow) (report : AliasImportReport)
    (rows : List ParticipantAliasRow)
    → accounted (import_from python lines (report, rows)).0 ≡ accounted report + length lines
unfolding import_from
import_from-accounted python [] report rows = omega arith
import_from-accounted python (a ∷ lines) report rows =
    let state = import_one a (alias_problem python a) (report, rows) in
    omega (
      arith,
      import_from-accounted python lines state.0 state.1,
      import_one-accounted a (alias_problem python a) report rows,
    )

-- Every line of an import is accounted for exactly once: as imported, as unchanged or in quarantine.
pub import_aliases-accounted :
    (python : Python) (lines : List AliasRow) (rows : List ParticipantAliasRow)
    → accounted (import_aliases python lines rows).0 ≡ length lines
unfolding import_aliases
import_aliases-accounted python lines rows =
    omega (arith, import_from-accounted python lines empty_report rows)
