-- ===== src/Budget/Charge.antt =====
-- The day's row and the conditional increment of `reserve`.
use betmaxxing.Prelude.{
  ℕ, ◌+◌, ◌≤◌, String, ◌≡◌, refl, sym, ◌∙◌, ◌≢◌, true, false, ◌&&◌, Option, none, some, List, [],
  ◌∷◌, arith, str_eq, ◌==◌, if◌then◌else◌, Bool-cases, Option-cases, inl, inr, eq_iff, str_eq_refl,
}
use betmaxxing.Table.{
  scalar, row_count, Keyed, scalar-update, scalar-append, scalar_sound, append-Keyed,
  row_count_narrow,
}
use betmaxxing.Budget.Defs.{
  ProviderBudgetDayRow, by_day, new_day, ensure_day_row, under_ceiling, charged, charge,
}
use betmaxxing.Budget.Sums.{day_total}
use betmaxxing.Budget.Invariant.{by_day_key}

-- The day's row that `reserve` makes sure of is there, and no counter has moved.
pub ensured :
    (p : String) (d moment : ℕ) (days : List ProviderBudgetDayRow)
    → scalar (by_day p d) (ensure_day_row p d moment days) ≢ none
unfolding ensure_day_row
ensured p d moment days = elim (Option-cases (scalar (by_day p d) days)) [
  | inr (r, e) ↦ rw (e, ensure_day_row) (λ x. cc)
  | inl missing ↦
      rw (missing, ensure_day_row)
        (rw (scalar-append (by_day p d) days (new_day p d moment ∷ []), missing)
          (unfold scalar in rw (str_eq_refl p) (ground arith)))
]

module _ (p : String) (d moment : ℕ) (days : List ProviderBudgetDayRow) where
  pub new_total :
      (field : ProviderBudgetDayRow → ℕ)
      → field (new_day p d moment) ≡ 0
      → (p' : String) (d' : ℕ) → day_total field p' d' (new_day p d moment ∷ []) ≡ 0
  unfolding scalar
  new_total field zero_field p' d' = ground arith

  pub ensure-day_total :
      (field : ProviderBudgetDayRow → ℕ)
      → field (new_day p d moment) ≡ 0
      → (p' : String) (d' : ℕ)
      → day_total field p' d' (ensure_day_row p d moment days) ≡ day_total field p' d' days
  unfolding ensure_day_row scalar
  ensure-day_total field zero_field p' d' = elim (Option-cases (scalar (by_day p d) days)) [
    | inr (r, e) ↦ rw (e, ensure_day_row) refl
    | inl missing ↦ elim (Option-cases (scalar (by_day p' d') days)) [
      | inr (r, e) ↦
          rw (missing, ensure_day_row, day_total)
            (rw (scalar-append (by_day p' d') days (new_day p d moment ∷ []), e)
              (sym (rw (day_total, e) refl)))
      | inl nothing ↦
          rw (missing, ensure_day_row, day_total)
            (rw (scalar-append (by_day p' d') days (new_day p d moment ∷ []), nothing)
              (new_total field zero_field p' d' ∙ sym (rw (day_total, nothing) refl)))
    ]
  ]

  pub ensure-keys :
      Keyed by_day_key days
      → (k : String × ℕ) → row_count (by_day_key k) (ensure_day_row p d moment days) ≤ 1
  unfolding ensure_day_row
  ensure-keys keyed = elim (Option-cases (scalar (by_day p d) days)) [
    | inr (r, e) ↦ rw (e, ensure_day_row) keyed
    | inl missing ↦
        rw (missing, ensure_day_row)
          (append-Keyed by_day_key (new_day p d moment) (p, d) days
            (λ (q, e) h. ground (arith, eq_iff p q)) missing keyed)
  ]

  pub ensure-has_day :
      (q : String) (e : ℕ)
      → scalar (by_day q e) days ≢ none
      → scalar (by_day q e) (ensure_day_row p d moment days) ≢ none
  unfolding ensure_day_row
  ensure-has_day q e there = elim (Option-cases (scalar (by_day p d) days)) [
    | inr (r, h) ↦ rw (h, ensure_day_row) there
    | inl missing ↦
        rw (missing, ensure_day_row)
          (rw (scalar-append (by_day q e) days (new_day p d moment ∷ []))
            (split (scalar (by_day q e) days) _ there))
  ]
    where
      split :
          (o o' : Option ProviderBudgetDayRow)
          → o ≢ none
          → elim o [ none ↦ o' | some r ↦ some r ] ≢ none
      split none o' h = absurd (h refl)
      split (some r) o' h = λ x. cc

module _ (p : String) (d cost moment : ℕ) (ceiling : Option ℕ) (days : List ProviderBudgetDayRow)
    (keyed : Keyed by_day_key days) (r : ProviderBudgetDayRow)
    (found : scalar (by_day p d) days ≡ some r) where
  -- The conditional increment succeeds exactly if the day's row has room.
  pub charge-exact : (charge p d cost ceiling moment days).0 ≡ under_ceiling cost ceiling r
  unfolding charge
  charge-exact =
      rw (row_count_narrow (by_day p d) (under_ceiling cost ceiling) days (keyed (p, d)) found)
        (ground arith)

  pub charge-day_total :
      (field : ProviderBudgetDayRow → ℕ) (by : ℕ)
      → ((x : ProviderBudgetDayRow) → field (charged cost moment x) ≡ field x + by)
      → under_ceiling cost ceiling r ≡ true
      → (p' : String) (d' : ℕ)
      → day_total field p' d' (charge p d cost ceiling moment days).1
        ≡ day_total field p' d' days + (if str_eq p p' && d == d' then by else 0)
  unfolding charge
  charge-day_total field by adds room p' d' = elim (Bool-cases (str_eq p p' && d == d')) [
    | inl same ↦
        let here : scalar (by_day p' d') days ≡ some r =
          rw (same_provider same, same_day same) at found in
        rw
          (
            day_total,
            scalar-update (by_day p' d') _ (charged cost moment) (λ x. refl) days,
            here,
            scalar_sound (by_day p d) days found,
            room,
            same,
          )
          (adds r)
    | inr other ↦ elim (Option-cases (scalar (by_day p' d') days)) [
      | inl missing ↦
          rw
            (
              day_total,
              scalar-update (by_day p' d') _ (charged cost moment) (λ x. refl) days,
              missing,
              other,
            )
            (omega arith)
      | inr (x, e) ↦
          rw
            (
              day_total,
              scalar-update (by_day p' d') _ (charged cost moment) (λ x. refl) days,
              e,
              not_charged x other (scalar_sound (by_day p' d') days e),
              other,
            )
            (omega arith)
    ]
  ]
    where
      same_provider : (str_eq p p' && d == d') ≡ true → p ≡ p'
      same_provider h = ground (arith, eq_iff p p')

      same_day : (str_eq p p' && d == d') ≡ true → d ≡ d'
      same_day h = ground arith

      not_charged :
          (x : ProviderBudgetDayRow)
          → (str_eq p p' && d == d') ≡ false
          → by_day p' d' x ≡ true
          → by_day p d x ≡ false
      not_charged x h k = ground (arith, eq_iff p p', eq_iff x.provider p, eq_iff x.provider p')
