-- ===== src/Normalize/Latest.antt =====
-- `latest_per_selection` keeps one price for each selection of a bookmaker, the newest.
use betmaxxing.Prelude.{
  ℕ, ◌≤◌, ◌≡◌, refl, ◌∙◌, ap, true, false, ◌&&◌, Option, none, some, List, [], ◌∷◌, arith,
  Bool-cases, inl, inr, eq_iff, str_eq, ltb, if◌then◌else◌, max,
}
use betmaxxing.Table.{scalar, row_count}
use betmaxxing.Normalize.Defs.{OddsSnapshot}
use betmaxxing.Normalize.Books.{
  PriceKey, price_key, of_price, keep_latest, latest_after, latest_per_selection,
}

-- The newest instant of a key among the snapshots, on its own terms.
abbrev pub later : Option ℕ → Option ℕ → Option ℕ
later none o = o
later (some a) none = some a
later (some a) (some b) = some (max a b)

unfoldable pub newest : PriceKey → List OddsSnapshot → Option ℕ
newest k [] = none
newest k (s ∷ snapshots) =
    let rest = newest k snapshots in if of_price k s then later (some s.observed_at) rest else rest

abbrev pub instant : Option OddsSnapshot → Option ℕ
instant none = none
instant (some s) = some s.observed_at

-- Two snapshots of one key answer alike to every key.
alike :
    (k : PriceKey) (s b : OddsSnapshot)
    → of_price (price_key s) b ≡ true
    → of_price k b ≡ of_price k s
alike k s b same =
    let keys : price_key b ≡ price_key s = ground (
      arith,
      same,
      eq_iff b.bookmaker s.bookmaker,
      eq_iff b.event_internal_id s.event_internal_id,
      eq_iff b.selection_key s.selection_key,
    ) in
    ap
      (λ x.
        str_eq x.bookmaker k.bookmaker
        && (str_eq x.event_internal_id k.event_internal_id
            && str_eq x.selection_key k.selection_key))
      keys

apart :
    (k : PriceKey) (s b : OddsSnapshot)
    → of_price (price_key s) b ≡ false
    → of_price k s ≡ true
    → of_price k b ≡ false
apart k s b other mine = ground (
  arith,
  other,
  mine,
  eq_iff b.bookmaker s.bookmaker,
  eq_iff b.event_internal_id s.event_internal_id,
  eq_iff b.selection_key s.selection_key,
  eq_iff s.bookmaker k.bookmaker,
  eq_iff s.event_internal_id k.event_internal_id,
  eq_iff s.selection_key k.selection_key,
  eq_iff b.bookmaker k.bookmaker,
  eq_iff b.event_internal_id k.event_internal_id,
  eq_iff b.selection_key k.selection_key,
)

keep_latest-count :
    (k : PriceKey) (s : OddsSnapshot) (best : List OddsSnapshot)
    → row_count (of_price k) (keep_latest s best)
      ≡ (if of_price k s then max 1 (row_count (of_price k) best) else row_count (of_price k) best)
unfolding keep_latest row_count
keep_latest-count k s [] = ground arith
keep_latest-count k s (b ∷ best) = elim (Bool-cases (of_price (price_key s) b)) [
  | inl same ↦
      let like = alike k s b same in
      elim (Bool-cases (ltb b.observed_at s.observed_at)) [
        | inl newer ↦ rw (same, newer) (ground (arith, like))
        | inr older ↦ rw (same, older) (ground (arith, like))
      ]
  | inr other ↦
      let ih = keep_latest-count k s best in
      let off = apart k s b other in rw other (ground (arith, ih, off))
]

later_assoc : (a b c : Option ℕ) → later (later a b) c ≡ later a (later b c)
later_assoc none b c = refl
later_assoc (some a) none c = refl
later_assoc (some a) (some b) none = refl
later_assoc (some a) (some b) (some c) = ap some (omega arith)

keep_latest-instant :
    (k : PriceKey) (s : OddsSnapshot) (best : List OddsSnapshot)
    → instant (scalar (of_price k) (keep_latest s best)) ≡ (
        if of_price k s
        then later (instant (scalar (of_price k) best)) (some s.observed_at)
        else instant (scalar (of_price k) best))
unfolding keep_latest scalar
keep_latest-instant k s [] = ground arith
keep_latest-instant k s (b ∷ best) = elim (Bool-cases (of_price (price_key s) b)) [
  | inl same ↦
      let like = alike k s b same in
      elim (Bool-cases (ltb b.observed_at s.observed_at)) [
        | inl newer ↦ rw (same, newer) (ground (arith, like))
        | inr older ↦ rw (same, older) (ground (arith, like))
      ]
  | inr other ↦
      let ih = keep_latest-instant k s best in
      let off = apart k s b other in rw other (ground (arith, ih, off))
]

latest_after-instant :
    (k : PriceKey) (best snapshots : List OddsSnapshot)
    → instant (scalar (of_price k) (latest_after best snapshots))
      ≡ later (instant (scalar (of_price k) best)) (newest k snapshots)
unfolding latest_after newest
latest_after-instant k best [] = at_end (instant (scalar (of_price k) best))
  where
    at_end : (o : Option ℕ) → o ≡ later o none
    at_end none = refl
    at_end (some a) = refl
latest_after-instant k best (s ∷ snapshots) =
    latest_after-instant k (keep_latest s best) snapshots
    ∙ ap (λ o. later o (newest k snapshots)) (keep_latest-instant k s best)
    ∙ elim (Bool-cases (of_price k s)) [
      | inl mine ↦ rw mine (
          later_assoc (instant (scalar (of_price k) best)) (some s.observed_at)
            (newest k snapshots))
      | inr other ↦ rw other refl
    ]

latest_after-once :
    (k : PriceKey) (best snapshots : List OddsSnapshot)
    → row_count (of_price k) best ≤ 1
    → row_count (of_price k) (latest_after best snapshots) ≤ 1
unfolding latest_after
latest_after-once k best [] h = h
latest_after-once k best (s ∷ snapshots) h =
    latest_after-once k (keep_latest s best) snapshots (ground (arith, keep_latest-count k s best))

-- One price per selection, the newest: for every bookmaker, event and selection, what
-- `latest_per_selection` keeps has at most one snapshot, and its instant is the latest at which the
-- input observed that key; a key that the input never has is not kept.
pub latest_per_selection-newest :
    (k : PriceKey) (snapshots : List OddsSnapshot)
    → (row_count (of_price k) (latest_per_selection snapshots) ≤ 1)
      × (instant (scalar (of_price k) (latest_per_selection snapshots)) ≡ newest k snapshots)
unfolding latest_per_selection scalar row_count
latest_per_selection-newest k snapshots =
    (latest_after-once k [] snapshots (omega arith), latest_after-instant k [] snapshots)
