-- ===== src/Runner/Milestones.antt =====
-- Which rescoring instants `milestones_for` returns.
use betmaxxing.Prelude.{
  ℕ, ◌+◌, ◌≤◌, ◌<◌, ◌≡◌, refl, subst, String, Bool, true, false, some, List, [], ◌∷◌, arith,
  Option-cases, inl, inr, ◌⊎◌, All,
}
use betmaxxing.Prelude.Int.{ℤ}
use betmaxxing.Table.{All-map}
use betmaxxing.Scheduler.Row.{default_catchup_grace}
use betmaxxing.Runner.Outcome.{
  run_at, dropped, keep_milestone, event_milestones, append_found, milestones_for,
}

-- An instant that is due or ahead, or behind by no more than the grace, and before the event starts.
abbrev pub Timely : ℕ → String × ℕ → String × ℕ → Type 0
Timely now (id, start) (event_id, at) =
    (event_id ≡ id) × (now ≤ at + default_catchup_grace) × (at < start)

keep-Timely :
    (now : ℕ) (id : String) (start at : ℕ) (rest : List (String × ℕ)) (drop : Bool)
    → dropped now start at ≡ drop
    → All (Timely now (id, start)) rest
    → All (Timely now (id, start)) (keep_milestone id drop at rest)
keep-Timely now id start at rest true e h = h
keep-Timely now id start at rest false e h = ((refl, ground (arith, e), ground (arith, e)), h)

event_milestones-Timely :
    (now : ℕ) (id : String) (start : ℕ) (offsets : List ℤ) {ms : List (String × ℕ)}
    → event_milestones now id start offsets ≡ some ms
    → All (Timely now (id, start)) ms
unfolding event_milestones
event_milestones-Timely now id start [] {ms} e =
    let same : [] ≡ ms = cc in subst (All (Timely now (id, start))) same tt
event_milestones-Timely now id start (o ∷ offsets) {ms} e = elim (Option-cases (run_at start o)) [
  | inl over ↦ absurd (ground (arith, e, over))
  | inr (at, found) ↦ elim (Option-cases (event_milestones now id start offsets)) [
    | inl over ↦ absurd (ground (arith, e, found, over))
    | inr (rest, more) ↦
        let same : keep_milestone id (dropped now start at) at rest ≡ ms =
          ground (arith, e, found, more) in
        subst (All (Timely now (id, start))) same (
          keep-Timely now id start at rest (dropped now start at) refl
            (event_milestones-Timely now id start offsets more))
  ]
]

-- The instant is timely for one of the events.
abbrev pub TimelyForOne : ℕ → List (String × ℕ) → String × ℕ → Type 0
TimelyForOne now [] m = ⊥
TimelyForOne now (event ∷ events) m = Timely now event m ⊎ TimelyForOne now events m

append_found-All :
    (P : String × ℕ → Type 0) (xs ys : List (String × ℕ))
    → All P xs
    → All P ys
    → All P (append_found xs ys)
append_found-All P [] ys h k = k
append_found-All P (x ∷ xs) ys h k = (h.0, append_found-All P xs ys h.1 k)

-- Every rescoring instant that `milestones_for` returns belongs to one of the discovered events, lies
-- before that event starts, and is due, ahead, or behind by no more than the catch-up grace: no
-- instant of a started event and none older than the grace is ever planned.
pub milestones_for-Timely :
    (now : ℕ) (offsets : List ℤ) (events ms : List (String × ℕ))
    → milestones_for now offsets events ≡ some ms
    → All (TimelyForOne now events) ms
unfolding milestones_for
milestones_for-Timely now offsets [] ms e =
    let same : [] ≡ ms = cc in subst (All (TimelyForOne now [])) same tt
milestones_for-Timely now offsets ((id, start) ∷ events) ms e =
    elim (Option-cases (event_milestones now id start offsets)) [
      | inl over ↦ absurd (ground (arith, e, over))
      | inr (found, first) ↦ elim (Option-cases (milestones_for now offsets events)) [
        | inl over ↦ absurd (ground (arith, e, first, over))
        | inr (rest, more) ↦
            let same : append_found found rest ≡ ms = ground (arith, e, first, more) in
            let all_events = (id, start) ∷ events in
            subst (All (TimelyForOne now all_events)) same (
              append_found-All (TimelyForOne now all_events) found rest
                (All-map _ _ found (λ m h. inl h)
                  (event_milestones-Timely now id start offsets first))
                (All-map _ _ rest (λ m h. inr h)
                  (milestones_for-Timely now offsets events rest more)))
      ]
    ]
