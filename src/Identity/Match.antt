-- ===== src/Identity/Match.antt =====
-- `_match` of src/betmaxxing/ingestion/identity.py: the stored events that a provider's event could be.
use betmaxxing.Prelude.{
  ℕ, ◌+◌, ◌*◌, String, Bool, false, ◌&&◌, not, Option, none, some, List, map, str_eq, leb,
}
use betmaxxing.Table.{select}
use betmaxxing.Names.Defs.{Python, is_among}
use betmaxxing.Identity.Rows.{sport_text, EventRow, EventSourceMapRow, IdentityDb, ProviderEvent}
use betmaxxing.Identity.Alias.{candidate_pair_keys}

-- `CROSS_PROVIDER_TOLERANCE`, 6 hours
abbrev pub cross_provider_tolerance : ℕ
cross_provider_tolerance = 6 * (3600 * 1000000)

-- `value or ""`
abbrev pub text_or_empty : Option String → String
text_or_empty none = ""
text_or_empty (some s) = s

unfoldable pub normalise_attribute : Python → Option String → String
normalise_attribute python value = python.casefold (python.strip (text_or_empty value))

abbrev pub both_differ : String → String → Bool
both_differ left right = not (str_eq left "") && (not (str_eq right "") && not (str_eq left right))

unfoldable pub attributes_conflict : Python → Option String → Option String → Bool
unfolding normalise_attribute
attributes_conflict python stored incoming =
    both_differ (normalise_attribute python stored) (normalise_attribute python incoming)

-- `participant_pair_key IN (...)`, which a NULL never is
abbrev pub has_key : List String → Option String → Bool
has_key keys none = false
has_key keys (some key) = is_among key keys

-- the `SELECT` on events
abbrev pub in_window : ProviderEvent → List String → EventRow → Bool
in_window e pair_keys r =
    str_eq r.sport (sport_text e.sport)
    && (has_key pair_keys r.participant_pair_key
        && (leb e.start_time_utc (r.start_time_utc + cross_provider_tolerance)
            && leb r.start_time_utc (e.start_time_utc + cross_provider_tolerance)))

-- the events that the provider already has an id for
unfoldable pub already_mapped : String → List EventSourceMapRow → List String
already_mapped provider source_map =
    map (λ r. r.internal_id) (select (λ r. str_eq r.provider provider) source_map)

abbrev pub agrees : Python → ProviderEvent → EventRow → Bool
agrees python e r =
    not (attributes_conflict python (some r.competition) (some e.competition))
    && (not (attributes_conflict python r.stage e.stage)
        && not (attributes_conflict python r.season e.season))

-- `_match`
unfoldable pub match_events : Python → ProviderEvent → IdentityDb → List EventRow
unfolding attributes_conflict
match_events python e db =
    let keys = candidate_pair_keys python e.sport e.home_name e.away_name e.provider db.aliases in
    let mapped = already_mapped e.provider db.source_map in
    select (agrees python e)
      (select (λ r. not (is_among r.canonical_id mapped)) (select (in_window e keys) db.events))
