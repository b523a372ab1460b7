-- ===== src/Normalize/Grouping.antt =====
-- The books of `assemble_books`: no price is lost or repeated, none stands in a book that is not its
-- own, and no book is there twice.
use betmaxxing.Prelude.{
  ℕ, ◌+◌, ◌≡◌, refl, ◌∙◌, Bool, false, List, [], ◌∷◌, map, arith, Bool-cases, inl, inr, All,
  All-append, sort_with, insert_with, All-insert_with, All-sort_with,
}
use betmaxxing.Table.{row_count, row_count-append}
use betmaxxing.Normalize.Defs.{OddsSnapshot, intake}
use betmaxxing.Normalize.Books.{
  MarketBook, fits_book, new_book, add_to_book, group_books, book_order, code_order, sorted_book,
  assemble_books, latest_per_selection,
}
use betmaxxing.Normalize.BookKey.{
  SameKey, SameKey-sym, SameKey-refl, snapshot_key, book_key, fits_book-SameKey, SameKey-fits_book,
}

-- Every price of the book has the book's key.
abbrev pub Consistent : MarketBook → Type 0
Consistent b = All (λ s. SameKey (snapshot_key s) (book_key b)) b.snapshots

abbrev Apart : MarketBook → MarketBook → Type 0
Apart a b = ¬ SameKey (book_key a) (book_key b)

-- No two of the books have one key.
abbrev pub AllApart : List MarketBook → Type 0
AllApart [] = Unit
AllApart (b ∷ books) = All (Apart b) books × AllApart books

-- how many prices of the books satisfy a condition
unfoldable pub total_prices : (OddsSnapshot → Bool) → List MarketBook → ℕ
total_prices p [] = 0
total_prices p (b ∷ books) = row_count p b.snapshots + total_prices p books

add_to_book-total :
    (p : OddsSnapshot → Bool) (s : OddsSnapshot) (books : List MarketBook)
    → total_prices p (add_to_book s books) ≡ row_count p (s ∷ []) + total_prices p books
unfolding add_to_book total_prices
add_to_book-total p s [] = refl
add_to_book-total p s (b ∷ books) = elim (Bool-cases (fits_book s b)) [
  | inl fits ↦ rw fits (omega (arith, row_count-append p b.snapshots (s ∷ [])))
  | inr other ↦ rw other (omega (arith, add_to_book-total p s books))
]

add_to_book-Consistent :
    (s : OddsSnapshot) (books : List MarketBook)
    → All Consistent books
    → All Consistent (add_to_book s books)
unfolding add_to_book
add_to_book-Consistent s [] h = ((SameKey-refl (snapshot_key s), tt), tt)
add_to_book-Consistent s (b ∷ books) h = elim (Bool-cases (fits_book s b)) [
  | inl fits ↦ rw fits (
    All-append (λ x. SameKey (snapshot_key x) (book_key b)) b.snapshots (s ∷ []) h.0
        (fits_book-SameKey s b fits, tt),
    h.1,
  )
  | inr other ↦ rw other (h.0, add_to_book-Consistent s books h.1)
]

add_to_book-Apart :
    (s : OddsSnapshot) (a : MarketBook) (books : List MarketBook)
    → fits_book s a ≡ false
    → All (Apart a) books
    → All (Apart a) (add_to_book s books)
unfolding add_to_book
add_to_book-Apart s a [] other h = (apart, tt)
  where
    apart : Apart a (new_book s)
    apart same =
        let fits = SameKey-fits_book s a (SameKey-sym (book_key a) (snapshot_key s) same) in
        absurd (ground (arith, fits, other))
add_to_book-Apart s a (b ∷ books) other h = elim (Bool-cases (fits_book s b)) [
  | inl e ↦ rw e (h.0, h.1)
  | inr e ↦ rw e (h.0, add_to_book-Apart s a books other h.1)
]

add_to_book-AllApart :
    (s : OddsSnapshot) (books : List MarketBook) → AllApart books → AllApart (add_to_book s books)
unfolding add_to_book
add_to_book-AllApart s [] h = (tt, tt)
add_to_book-AllApart s (b ∷ books) h = elim (Bool-cases (fits_book s b)) [
  | inl e ↦ rw e (h.0, h.1)
  | inr e ↦ rw e (add_to_book-Apart s b books e h.0, add_to_book-AllApart s books h.1)
]

group_books-total :
    (p : OddsSnapshot → Bool) (books : List MarketBook) (snapshots : List OddsSnapshot)
    → total_prices p (group_books books snapshots) ≡ total_prices p books + row_count p snapshots
unfolding group_books
group_books-total p books [] = unfold row_count in omega arith
group_books-total p books (s ∷ snapshots) = omega (
  arith,
  group_books-total p (add_to_book s books) snapshots,
  add_to_book-total p s books,
  row_count-append p (s ∷ []) snapshots,
)

group_books-Consistent :
    (books : List MarketBook) (snapshots : List OddsSnapshot)
    → All Consistent books
    → All Consistent (group_books books snapshots)
unfolding group_books
group_books-Consistent books [] h = h
group_books-Consistent books (s ∷ snapshots) h =
    group_books-Consistent (add_to_book s books) snapshots (add_to_book-Consistent s books h)

group_books-AllApart :
    (books : List MarketBook) (snapshots : List OddsSnapshot)
    → AllApart books
    → AllApart (group_books books snapshots)
unfolding group_books
group_books-AllApart books [] h = h
group_books-AllApart books (s ∷ snapshots) h =
    group_books-AllApart (add_to_book s books) snapshots (add_to_book-AllApart s books h)

insert_with-total :
    (p : OddsSnapshot → Bool) (b : MarketBook) (books : List MarketBook)
    → total_prices p (insert_with book_order b books)
      ≡ row_count p b.snapshots + total_prices p books
unfolding insert_with total_prices
insert_with-total p b [] = refl
insert_with-total p b (c ∷ books) = elim (Bool-cases (book_order b c)) [
  | inl e ↦ rw e refl
  | inr e ↦ rw e (omega (arith, insert_with-total p b books))
]

sort_with-total :
    (p : OddsSnapshot → Bool) (books : List MarketBook)
    → total_prices p (sort_with book_order books) ≡ total_prices p books
unfolding sort_with total_prices
sort_with-total p [] = refl
sort_with-total p (b ∷ books) =
    omega (arith, insert_with-total p b (sort_with book_order books), sort_with-total p books)

insert_with-AllApart :
    (b : MarketBook) (books : List MarketBook)
    → All (Apart b) books
    → AllApart books
    → AllApart (insert_with book_order b books)
unfolding insert_with
insert_with-AllApart b [] h k = (tt, tt)
insert_with-AllApart b (c ∷ books) h k = elim (Bool-cases (book_order b c)) [
  | inl e ↦ rw e (h, k)
  | inr e ↦ rw e (
    All-insert_with book_order (Apart c) b books
        (λ same. h.0 (SameKey-sym (book_key c) (book_key b) same)) k.0,
    insert_with-AllApart b books h.1 k.1,
  )
]

sort_with-AllApart :
    (books : List MarketBook) → AllApart books → AllApart (sort_with book_order books)
unfolding sort_with
sort_with-AllApart [] h = tt
sort_with-AllApart (b ∷ books) h =
    insert_with-AllApart b (sort_with book_order books)
      (All-sort_with book_order (Apart b) books h.0) (sort_with-AllApart books h.1)

count-insert_with :
    (p : OddsSnapshot → Bool) (s : OddsSnapshot) (ss : List OddsSnapshot)
    → row_count p (insert_with code_order s ss) ≡ row_count p (s ∷ ss)
unfolding insert_with row_count
count-insert_with p s [] = refl
count-insert_with p s (t ∷ ss) = elim (Bool-cases (code_order s t)) [
  | inl e ↦ rw e refl
  | inr e ↦ rw e (ground (arith, count-insert_with p s ss))
]

count-sort_with :
    (p : OddsSnapshot → Bool) (ss : List OddsSnapshot)
    → row_count p (sort_with code_order ss) ≡ row_count p ss
unfolding sort_with row_count
count-sort_with p [] = refl
count-sort_with p (s ∷ ss) =
    count-insert_with p s (sort_with code_order ss) ∙ ground (arith, count-sort_with p ss)

sorted_books-total :
    (p : OddsSnapshot → Bool) (books : List MarketBook)
    → total_prices p (map sorted_book books) ≡ total_prices p books
unfolding total_prices
sorted_books-total p [] = refl
sorted_books-total p (b ∷ books) =
    omega (arith, sorted_books-total p books, count-sort_with p b.snapshots)

sorted_books-Consistent :
    (books : List MarketBook) → All Consistent books → All Consistent (map sorted_book books)
sorted_books-Consistent [] h = tt
sorted_books-Consistent (b ∷ books) h = (
  All-sort_with code_order (λ s. SameKey (snapshot_key s) (book_key b)) b.snapshots h.0,
  sorted_books-Consistent books h.1,
)

sorted_books-Apart :
    (a : MarketBook) (books : List MarketBook)
    → All (Apart a) books
    → All (Apart a) (map sorted_book books)
sorted_books-Apart a [] h = tt
sorted_books-Apart a (b ∷ books) h = (h.0, sorted_books-Apart a books h.1)

sorted_books-AllApart :
    (books : List MarketBook) → AllApart books → AllApart (map sorted_book books)
sorted_books-AllApart [] h = tt
sorted_books-AllApart (b ∷ books) h =
    (sorted_books-Apart b books h.0, sorted_books-AllApart books h.1)

-- The grouping of `assemble_books` is exact: each price is in its books as often as it is kept of the
-- usable snapshots (any condition on prices holds of as many), every price stands in a book of its own
-- event, bookmaker, market, period and line, and no two books share all five: the prices of two
-- bookmakers are never merged, and the prices of one book are never split.
pub assemble_books-accounts :
    (now : ℕ) (snapshots : List OddsSnapshot) (p : OddsSnapshot → Bool)
    → let books = (assemble_books now snapshots).books in
      (total_prices p books ≡ row_count p (latest_per_selection (intake now snapshots).usable))
      × All Consistent books
      × AllApart books
unfolding assemble_books
assemble_books-accounts now snapshots p =
    let kept = latest_per_selection (intake now snapshots).usable in
    let grouped = group_books [] kept in
    let sorted = sort_with book_order grouped in
    (
      sorted_books-total p sorted
          ∙ sort_with-total p grouped
          ∙ group_books-total p [] kept
          ∙ none_before (row_count p kept),
      sorted_books-Consistent sorted
          (All-sort_with book_order Consistent grouped (group_books-Consistent [] kept tt)),
      sorted_books-AllApart sorted (sort_with-AllApart grouped (group_books-AllApart [] kept tt)),
    )
  where
    none_before : (n : ℕ) → total_prices p [] + n ≡ n
    none_before n = unfold total_prices in omega arith
