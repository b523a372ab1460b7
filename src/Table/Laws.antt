-- ===== src/Table/Laws.antt =====
-- What `SELECT` sees after an `UPDATE` or an `INSERT`.
use betmaxxing.Prelude.{
  ◌+◌, ◌≤◌, ◌≡◌, refl, subst, Bool, true, false, ◌&&◌, none, some, List, [], ◌∷◌, ◌++◌, arith,
  if◌then◌else◌, All, length, Bool-cases, inl, inr,
}
use betmaxxing.Table.Defs.{scalar, select, update, row_count, Keyed}

module _ {ℓ} {Row : Type ℓ} where
  -- An update that keeps what `q` reads leaves the count of `q` alone.
  pub row_count-update :
      (q p : Row → Bool) (f : Row → Row)
      → ((r : Row) → q (f r) ≡ q r)
      → (rows : List Row) → row_count q (update p f rows) ≡ row_count q rows
  unfolding row_count update
  row_count-update q p f keeps [] = refl
  row_count-update q p f keeps (r ∷ rows) =
      ground (arith, keeps r, row_count-update q p f keeps rows)

  pub scalar-update :
      (q p : Row → Bool) (f : Row → Row)
      → ((r : Row) → q (f r) ≡ q r)
      → (rows : List Row)
      → scalar q (update p f rows)
        ≡ elim (scalar q rows) [ none ↦ none | some r ↦ some (if p r then f r else r) ]
  unfolding scalar update
  scalar-update q p f keeps [] = refl
  scalar-update q p f keeps (r ∷ rows) = ground (arith, keeps r, scalar-update q p f keeps rows)

  pub row_count-append :
      (p : Row → Bool) (xs ys : List Row) → row_count p (xs ++ ys) ≡ row_count p xs + row_count p ys
  unfolding row_count
  row_count-append p [] ys = omega arith
  row_count-append p (x ∷ xs) ys = ground (arith, row_count-append p xs ys)

  pub scalar-append :
      (p : Row → Bool) (xs ys : List Row)
      → scalar p (xs ++ ys) ≡ elim (scalar p xs) [ none ↦ scalar p ys | some r ↦ some r ]
  unfolding scalar
  scalar-append p [] ys = refl
  scalar-append p (x ∷ xs) ys = ground (arith, scalar-append p xs ys)

  pub row_count_of_none :
      (p : Row → Bool) (rows : List Row) → scalar p rows ≡ none → row_count p rows ≡ 0
  unfolding scalar row_count
  row_count_of_none p [] h = refl
  row_count_of_none p (r ∷ rows) h = ground (arith, row_count_of_none p rows)

  -- A row that is found satisfies the condition.
  pub scalar_sound :
      (p : Row → Bool) (rows : List Row) {r : Row} → scalar p rows ≡ some r → p r ≡ true
  unfolding scalar
  scalar_sound p [] h = cc
  scalar_sound p (x ∷ rows) {r} h = ground (arith, scalar_sound p rows {r = r})

  pub length-select : (p : Row → Bool) (rows : List Row) → length (select p rows) ≡ row_count p rows
  unfolding select row_count
  length-select p [] = refl
  length-select p (r ∷ rows) = ground (arith, length-select p rows)

  pub row_count_narrow_zero :
      (q s : Row → Bool) (rows : List Row)
      → row_count q rows ≡ 0
      → row_count (λ x. q x && s x) rows ≡ 0
  unfolding row_count
  row_count_narrow_zero q s [] n = refl
  row_count_narrow_zero q s (x ∷ rows) n = ground (arith, row_count_narrow_zero q s rows)

  -- Among rows with one key, a narrower condition matches exactly if the row that the key finds
  -- meets it.
  pub row_count_narrow :
      (q s : Row → Bool) (rows : List Row) {r : Row}
      → row_count q rows ≤ 1
      → scalar q rows ≡ some r
      → row_count (λ x. q x && s x) rows ≡ (if s r then 1 else 0)
  unfolding row_count scalar
  row_count_narrow q s [] n h = cc
  row_count_narrow q s (x ∷ rows) {r} n h =
      ground (arith, row_count_narrow_zero q s rows, row_count_narrow q s rows {r = r})

  pub row_count_narrow_none :
      (q s : Row → Bool) (rows : List Row)
      → scalar q rows ≡ none
      → row_count (λ x. q x && s x) rows ≡ 0
  unfolding row_count scalar
  row_count_narrow_none q s [] h = refl
  row_count_narrow_none q s (x ∷ rows) h = ground (arith, row_count_narrow_none q s rows)

  -- An update that no row meets changes nothing.
  pub update_none :
      (p : Row → Bool) (f : Row → Row) (rows : List Row)
      → row_count p rows ≡ 0
      → update p f rows ≡ rows
  unfolding row_count update
  update_none p f [] h = refl
  update_none p f (r ∷ rows) h = ground (arith, update_none p f rows)

  pub row_count_mono :
      (p q : Row → Bool)
      → ((r : Row) → p r ≡ true → q r ≡ true)
      → (rows : List Row) → row_count p rows ≤ row_count q rows
  unfolding row_count
  row_count_mono p q implies [] = omega arith
  row_count_mono p q implies (r ∷ rows) = ground (arith, implies r, row_count_mono p q implies rows)

  -- A condition that its own update falsifies meets no row any more.
  pub row_count-update_self :
      (p : Row → Bool) (f : Row → Row)
      → ((r : Row) → p r ≡ true → p (f r) ≡ false)
      → (rows : List Row) → row_count p (update p f rows) ≡ 0
  unfolding row_count update
  row_count-update_self p f falsifies [] = refl
  row_count-update_self p f falsifies (r ∷ rows) =
      ground (arith, falsifies r, row_count-update_self p f falsifies rows)

module _ {ℓ κ} {Row : Type ℓ} (P : Row → Type κ) where
  -- An invariant of each row survives an update that keeps it where the condition holds.
  pub All-update :
      (p : Row → Bool) (f : Row → Row) (rows : List Row)
      → ((r : Row) → p r ≡ true → P r → P (f r))
      → All P rows
      → All P (update p f rows)
  unfolding update
  All-update p f [] keeps h = tt
  All-update p f (r ∷ rows) keeps h = elim (Bool-cases (p r)) [
    | inl e ↦ rw e (keeps r e h.0, All-update p f rows keeps h.1)
    | inr e ↦ rw e (h.0, All-update p f rows keeps h.1)
  ]

  pub All-scalar :
      (p : Row → Bool) (rows : List Row) {r : Row} → All P rows → scalar p rows ≡ some r → P r
  unfolding scalar
  All-scalar p [] h e = cc
  All-scalar p (x ∷ rows) {r} h e = elim (Bool-cases (p x)) [
    | inl t ↦ subst P (ground arith) h.0
    | inr t ↦ All-scalar p rows {r = r} h.1 (ground arith)
  ]

  pub All-select : (p : Row → Bool) (rows : List Row) → All P rows → All P (select p rows)
  unfolding select
  All-select p [] h = tt
  All-select p (r ∷ rows) h = elim (Bool-cases (p r)) [
    | inl e ↦ rw e (h.0, All-select p rows h.1)
    | inr e ↦ rw e (All-select p rows h.1)
  ]

-- Every selected row meets the condition.
pub select_sound {ℓ} :
    {Row : Type ℓ} (p : Row → Bool) (rows : List Row) → All (λ r. p r ≡ true) (select p rows)
unfolding select
select_sound p [] = tt
select_sound p (r ∷ rows) = elim (Bool-cases (p r)) [
  | inl e ↦ rw e (e, select_sound p rows)
  | inr e ↦ rw e (select_sound p rows)
]

none_meets {ℓ} :
    {Row : Type ℓ} (q : Row → Bool) (rows : List Row) (r : Row)
    → row_count q rows ≡ 0
    → All (λ x. q x ≡ true → x ≡ r) rows
unfolding row_count
none_meets q [] r n = tt
none_meets q (x ∷ rows) r n = ((λ t. ground arith), none_meets q rows r (ground arith))

-- Where a key is unique, the row that it finds is the only one that it meets.
pub keyed_only {ℓ} :
    {Row : Type ℓ} (q : Row → Bool) (rows : List Row) (r : Row)
    → row_count q rows ≤ 1
    → scalar q rows ≡ some r
    → All (λ x. q x ≡ true → x ≡ r) rows
unfolding row_count scalar
keyed_only q [] r n h = tt
keyed_only q (x ∷ rows) r n h = elim (Bool-cases (q x)) [
  | inl e ↦ ((λ _. ground arith), none_meets q rows r (ground arith))
  | inr e ↦ ((λ t. cc), keyed_only q rows r (ground arith) (ground arith))
]

-- Two facts of every row at once.
pub All-both {ℓ κ μ} :
    {Row : Type ℓ} (P : Row → Type κ) (Q : Row → Type μ) (rows : List Row)
    → All P rows
    → All Q rows
    → All (λ r. P r × Q r) rows
All-both P Q [] h k = tt
All-both P Q (r ∷ rows) h k = ((h.0, k.0), All-both P Q rows h.1 k.1)

pub All-map {ℓ κ μ} :
    {Row : Type ℓ} (P : Row → Type κ) (Q : Row → Type μ) (rows : List Row)
    → ((r : Row) → P r → Q r)
    → All P rows
    → All Q rows
All-map P Q [] f h = tt
All-map P Q (r ∷ rows) f h = (f r h.0, All-map P Q rows f h.1)

-- An insert under a key that no row has keeps the key unique.
pub append-Keyed {ℓ κ} :
    {Row : Type ℓ} {K : Type κ} (by : K → Row → Bool) (row : Row) (own : K) (rows : List Row)
    → ((k : K) → by k row ≡ true → k ≡ own)
    → scalar (by own) rows ≡ none
    → Keyed by rows
    → (k : K) → row_count (by k) (rows ++ row ∷ []) ≤ 1
unfolding row_count
append-Keyed by row own rows only fresh keyed k = elim (Bool-cases (by k row)) [
  | inl e ↦
      let same = only k e in
      let zero_rows : row_count (by k) rows ≡ 0 = rw same (row_count_of_none (by own) rows fresh) in
      rw (row_count-append (by k) rows (row ∷ []), e) (omega arith)
  | inr e ↦ rw (row_count-append (by k) rows (row ∷ []), e) (omega (arith, keyed k))
]
