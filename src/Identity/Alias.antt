-- ===== src/Identity/Alias.antt =====
-- Participant aliases of src/betmaxxing/ingestion/identity.py: `AliasRow.validate`, `import_aliases`,
-- `_alias_keys` and `_candidate_pair_keys`.
use Prim.Native.Char.{Char, code}
use Prim.Native.String.{◌++◌ as text_append}
use text.Mathlib.Text.{starts_with}
use betmaxxing.Prelude.{
  ℕ, ◌+◌, String, Bool, ◌&&◌, not, Option, none, some, List, [], ◌∷◌, ◌++◌, map, str_eq, ◌==◌,
  if◌then◌else◌, sort_by,
}
use betmaxxing.Table.{scalar, select}
use betmaxxing.Names.Defs.{Python, normalize_participant, chars, of_chars, is_among}
use betmaxxing.Identity.Rows.{Sport, sport_text, ParticipantAliasRow}

-- a line of an import file
pub record AliasRow : Type 0 where
  pub line : ℕ
  pub sport : String
  pub alias : String
  pub canonical_participant_id : String
  pub source : String

pub data AliasProblem : Type 0 where
  sport_out_of_scope empty_alias empty_participant empty_source wrong_prefix : AliasProblem
  contradiction : AliasProblem

-- `not value.strip()`
abbrev pub is_blank : Python → String → Bool
is_blank python value = str_eq (python.strip value) ""

-- `AliasRow.validate`
unfoldable pub alias_problem : Python → AliasRow → Option AliasProblem
alias_problem python a =
    if not (is_among a.sport (sport_text Sport.football ∷ sport_text Sport.tennis ∷ []))
    then some sport_out_of_scope
    else if is_blank python a.alias
    then some empty_alias
    else if is_blank python a.canonical_participant_id
    then some empty_participant
    else if is_blank python a.source
    then some empty_source
    else if not (starts_with a.canonical_participant_id (text_append a.sport ":"))
    then some wrong_prefix
    else none

-- `AliasImportReport`, with the number of each quarantined line and why
pub record AliasImportReport : Type 0 where
  pub imported : ℕ
  pub unchanged : ℕ
  pub quarantined : List (ℕ × AliasProblem)

-- the columns of `uq_participant_alias_source`
pub record AliasKey : Type 0 where
  pub sport : String
  pub source : String
  pub alias : String

abbrev pub of_alias : AliasKey → ParticipantAliasRow → Bool
of_alias k r = str_eq r.sport k.sport && (str_eq r.source k.source && str_eq r.alias k.alias)

abbrev pub alias_key : AliasRow → AliasKey
alias_key a = record { sport = a.sport; source = a.source; alias = a.alias }

abbrev pub stored_alias : AliasRow → ParticipantAliasRow
stored_alias a = record {
  sport = a.sport;
  alias = a.alias;
  canonical_participant_id = a.canonical_participant_id;
  source = a.source;
}

abbrev pub quarantine : ℕ → AliasProblem → AliasImportReport → AliasImportReport
quarantine line problem report = record report {
  quarantined = report.quarantined ++ (line, problem) ∷ [];
}

-- a valid line, after the `SELECT` for its key
abbrev pub import_valid :
    AliasRow
    → Option ParticipantAliasRow
    → AliasImportReport × List ParticipantAliasRow
    → AliasImportReport × List ParticipantAliasRow
import_valid a none (report, aliases) =
    (record report { imported = report.imported + 1 }, aliases ++ stored_alias a ∷ [])
import_valid a (some existing) (report, aliases) = (
  if str_eq existing.canonical_participant_id a.canonical_participant_id
      then record report { unchanged = report.unchanged + 1 }
      else quarantine a.line contradiction report,
  aliases,
)

abbrev pub import_one :
    AliasRow
    → Option AliasProblem
    → AliasImportReport × List ParticipantAliasRow
    → AliasImportReport × List ParticipantAliasRow
import_one a (some problem) (report, aliases) = (quarantine a.line problem report, aliases)
import_one a none (report, aliases) =
    import_valid a (scalar (of_alias (alias_key a)) aliases) (report, aliases)

-- the loop of `import_aliases`
unfoldable pub import_from :
    Python
    → List AliasRow
    → AliasImportReport × List ParticipantAliasRow
    → AliasImportReport × List ParticipantAliasRow
unfolding alias_problem
import_from python [] state = state
import_from python (a ∷ rows) state =
    import_from python rows (import_one a (alias_problem python a) state)

abbrev pub empty_report : AliasImportReport
empty_report = record { imported = 0; unchanged = 0; quarantined = [] }

unfoldable pub import_aliases :
    Python → List AliasRow → List ParticipantAliasRow → AliasImportReport × List ParticipantAliasRow
unfolding import_from
import_aliases python rows aliases = import_from python rows (empty_report, aliases)

-- `text.split(":", 1)[-1]`
unfoldable pub after_colon : List Char → Option (List Char)
after_colon [] = none
after_colon (c ∷ cs) = let rest = after_colon cs in if code c == 58 then some cs else rest

abbrev pub after_sport : String → String
after_sport text = elim (after_colon (chars text)) [ none ↦ text | some rest ↦ of_chars rest ]

abbrev pub add_key : String → List String → List String
add_key key keys = if is_among key keys then keys else keys ++ key ∷ []

abbrev pub add_aliases : List ParticipantAliasRow → List String → List String
add_aliases [] keys = keys
add_aliases (r ∷ rows) keys =
    add_aliases rows (add_key (after_sport r.canonical_participant_id) keys)

-- `_alias_keys`: the provider's own aliases come first
unfoldable pub alias_keys :
    Python → Sport → String → String → List ParticipantAliasRow → List String
unfolding after_colon
alias_keys python sport name provider aliases =
    let rows = select (λ r. str_eq r.sport (sport_text sport) && str_eq r.alias name) aliases in
    add_aliases (sort_by (λ r. if str_eq r.source provider then 0 else 1) rows)
      (normalize_participant python name ∷ [])

abbrev pub pair_key : Sport → String → String → String
pair_key sport home away =
    text_append (sport_text sport) (text_append "|" (text_append home (text_append "|" away)))

abbrev pub pairs_of : Sport → List String → List String → List String
pairs_of sport [] aways = []
pairs_of sport (home ∷ homes) aways = map (pair_key sport home) aways ++ pairs_of sport homes aways

-- `_candidate_pair_keys`
unfoldable pub candidate_pair_keys :
    Python → Sport → String → String → String → List ParticipantAliasRow → List String
candidate_pair_keys python sport home_name away_name provider aliases =
    pairs_of sport (alias_keys python sport home_name provider aliases)
      (alias_keys python sport away_name provider aliases)

-- `participant_pair_key`
unfoldable pub participant_pair_key : Python → Sport → String → String → String
participant_pair_key python sport home away =
    pair_key sport (normalize_participant python home) (normalize_participant python away)
