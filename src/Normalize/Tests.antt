-- ===== src/Normalize/Tests.antt =====
-- The intake's theorems at three snapshots, two of them the same.
use betmaxxing.Prelude.{◌≤◌, ◌≡◌, some, true, none, List, [], ◌∷◌, All}
use betmaxxing.Table.{row_count, scalar}
use betmaxxing.Normalize.Defs.{OddsSnapshot, Period, total_goals, match_winner, intake}
use betmaxxing.Normalize.Books.{of_price, price_key, latest_per_selection, assemble_books}
use betmaxxing.Normalize.Latest.{instant, newest, latest_per_selection-newest}
use betmaxxing.Normalize.Grouping.{total_prices, Consistent, AllApart, assemble_books-accounts}

abbrev winner : OddsSnapshot
winner = record {
  fingerprint = "f1";
  bookmaker = "b";
  event_internal_id = "e";
  selection_key = "match_winner|full_time|-|home";
  period = Period.full_time;
  market = match_winner;
  line = none;
  code = "home";
  above_one = true;
  observed_at = 5;
  received_at = 6;
}

-- without the line that an over/under market needs
abbrev over : OddsSnapshot
over = record winner { fingerprint = "f2"; market = total_goals; code = "over" }

abbrev three : List OddsSnapshot
three = winner ∷ over ∷ winner ∷ []

-- the same price, observed again
abbrev moved : OddsSnapshot
moved = record winner { fingerprint = "f3"; observed_at = 6 }

latest_per_selection-newest_example :
    let kept = latest_per_selection (winner ∷ moved ∷ []) in
    (row_count (of_price (price_key winner)) kept ≤ 1)
    × (instant (scalar (of_price (price_key winner)) kept) ≡ some 6)
unfolding newest
latest_per_selection-newest_example =
    latest_per_selection-newest (price_key winner) (winner ∷ moved ∷ [])

-- the same price at another bookmaker
abbrev elsewhere : OddsSnapshot
elsewhere = record winner { fingerprint = "f9"; bookmaker = "b9" }

assemble_books-accounts_example :
    let books = (assemble_books 7 (winner ∷ moved ∷ elsewhere ∷ [])).books in
    (total_prices (λ s. s.above_one) books
      ≡ row_count
          (λ s. s.above_one)
          (latest_per_selection (intake 7 (winner ∷ moved ∷ elsewhere ∷ [])).usable))
    × All Consistent books
    × AllApart books
assemble_books-accounts_example =
    assemble_books-accounts 7 (winner ∷ moved ∷ elsewhere ∷ []) (λ s. s.above_one)
