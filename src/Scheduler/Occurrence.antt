-- ===== src/Scheduler/Occurrence.antt =====
-- The ids of occurrences (`occurrence_id` of src/betmaxxing/scheduler/ledger.py) tell occurrences apart,
-- so that after `enqueue` there is a row of that very occurrence.
use Prim.Native.Char.{code}
use Prim.Native.String.{◌++◌ as text_append}
use text.Mathlib.TextLemmas.{append_cancel_left, cons-append}
use betmaxxing.Prelude.{
  ℕ, ◌≡◌, refl, sym, ◌∙◌, ap, String, Bool, true, false, Option, some, [], ◌∷◌, arith, Option-cases,
  inl, inr, All, All-append, eq_iff, ◌==◌, Bool-cases,
}
use betmaxxing.Table.{scalar, scalar-append, scalar_sound, All-scalar}
use betmaxxing.Scheduler.Row.{
  JobType, daily_scan, event_milestone, job_type_eq, SchedulerJobRow, Jobs, by_id,
}
use betmaxxing.Scheduler.Enqueue.{
  Digest, enqueue, occurrence_id, pending_row, scope_text, same_occurrence, to_minute,
  job_type_text,
}
use betmaxxing.Scheduler.Final.{is_row}

-- What the ledger relies on: the hash does not collide, and the text of an instant, which has no bar,
-- tells whole minutes apart.
pub record Faithful (d : Digest) : Type 0 where
  pub no_collision : (x y : String) → d.sha256_32 x ≡ d.sha256_32 y → x ≡ y
  pub instants :
      (a b : ℕ) (x y : String)
      → text_append (d.isoformat (to_minute a)) (text_append "|" x)
        ≡ text_append (d.isoformat (to_minute b)) (text_append "|" y)
      → to_minute a ≡ to_minute b

starts_daily : String → Bool
starts_daily String.[] = false
starts_daily (String.◌∷◌ c s) = code c == 68

begins :
    (u : JobType) (x : String)
    → starts_daily (text_append (job_type_text u) x) ≡ job_type_eq u daily_scan
unfolding starts_daily
begins daily_scan x = ap starts_daily (cons-append _ "AILY_SCAN" x)
begins event_milestone x = ap starts_daily (cons-append _ "VENT_MILESTONE" x)

same_type :
    (t u : JobType) (x y : String)
    → text_append (job_type_text t) x ≡ text_append (job_type_text u) y
    → job_type_eq t daily_scan ≡ job_type_eq u daily_scan
same_type t u x y h = sym (begins t x) ∙ ap starts_daily h ∙ begins u y

type_of : (t u : JobType) → job_type_eq t daily_scan ≡ job_type_eq u daily_scan → t ≡ u
type_of daily_scan daily_scan h = refl
type_of daily_scan event_milestone h = cc
type_of event_milestone daily_scan h = cc
type_of event_milestone event_milestone h = refl

-- One id is one occurrence.
pub occurrence_id_injective :
    (d : Digest) (t u : JobType) (a b : ℕ) (x y : String)
    → Faithful d
    → occurrence_id d t a x ≡ occurrence_id d u b y
    → (t ≡ u) × (to_minute a ≡ to_minute b) × (x ≡ y)
unfolding occurrence_id
occurrence_id_injective d t u a b x y faithful h =
    let texts = faithful.no_collision _ _ h in
    let kind = type_of t u (same_type t u _ _ texts) in
    let rest = text_append "|" (text_append (d.isoformat (to_minute a)) (text_append "|" x)) in
    let after_type =
      append_cancel_left (job_type_text u) _ _
        (ap (λ k. text_append (job_type_text k) rest) (sym kind) ∙ texts) in
    let after_bar = append_cancel_left "|" _ _ after_type in
    let minute = faithful.instants a b x y after_bar in
    let after_minute =
      append_cancel_left (d.isoformat (to_minute b)) _ _
        (ap (λ m. text_append (d.isoformat m) (text_append "|" x)) (sym minute) ∙ after_bar) in
    (kind, minute, append_cancel_left "|" _ _ after_minute)

-- A row's id is that of its own occurrence, which stands on a whole minute.
pub record OwnId (d : Digest) (r : SchedulerJobRow) : Type 0 where
  pub id : r.job_id ≡ occurrence_id d r.job_type r.scheduled_for r.scope_id
  pub on_minute : to_minute r.scheduled_for ≡ r.scheduled_for

to_minute_idem : (t : ℕ) → to_minute (to_minute t) ≡ to_minute t
to_minute_idem t = omega arith

pub enqueue-OwnId :
    (d : Digest) (t : JobType) (at : ℕ) (scope : Option String) (now : ℕ) (jobs : Jobs)
    → All (OwnId d) jobs
    → All (OwnId d) (enqueue d t at scope now jobs).1
unfolding enqueue
enqueue-OwnId d t at scope now jobs own =
    let id = occurrence_id d t (to_minute at) (scope_text scope) in
    elim (Option-cases (scalar (by_id id) jobs)) [
      | inr (r, e) ↦ rw e own
      | inl no_id ↦
          elim (Option-cases (scalar (same_occurrence t (to_minute at) (scope_text scope)) jobs)) [
            | inr (r, e) ↦ rw (no_id, e) own
            | inl no_key ↦
                rw (no_id, no_key)
                  (All-append (OwnId d) jobs _ own
                    (record { id = refl; on_minute = to_minute_idem at }, tt))
          ]
    ]

-- There is a row of exactly this occurrence.
abbrev pub Present : JobType → ℕ → Option String → Jobs → Type 0
Present t at scope jobs =
    is_row (scalar (same_occurrence t (to_minute at) (scope_text scope)) jobs) ≡ true

found_too :
    (p q : SchedulerJobRow → Bool) (rows : Jobs) {r : SchedulerJobRow}
    → scalar p rows ≡ some r
    → q r ≡ true
    → is_row (scalar q rows) ≡ true
unfolding scalar
found_too p q [] h e = cc
found_too p q (x ∷ rows) {r} h e = elim (Bool-cases (p x)) [
  | inl t ↦ let same : x ≡ r = ground (arith, h, t) in rw (ap q same, e) refl
  | inr f ↦ ground (arith, found_too p q rows {r = r} (ground (arith, h, f)) e)
]

type_refl : (t : JobType) → job_type_eq t t ≡ true
type_refl daily_scan = refl
type_refl event_milestone = refl

own_columns :
    (t : JobType) (when : ℕ) (scope : String) (r : SchedulerJobRow)
    → r.job_type ≡ t
    → r.scheduled_for ≡ when
    → r.scope_id ≡ scope
    → same_occurrence t when scope r ≡ true
own_columns t when scope r e f g =
    ground (arith, ap (λ u. job_type_eq u t) e ∙ type_refl t, f, (eq_iff r.scope_id scope).1 g)

-- After `enqueue`, whether it added a row or declined, the table has a row of the occurrence.
pub enqueue-Present :
    (d : Digest) (t : JobType) (at : ℕ) (scope : Option String) (now : ℕ) (jobs : Jobs)
    → Faithful d
    → All (OwnId d) jobs
    → Present t at scope (enqueue d t at scope now jobs).1
unfolding enqueue
enqueue-Present d t at scope now jobs faithful own =
    let when = to_minute at in
    let named = scope_text scope in
    let id = occurrence_id d t when named in
    elim (Option-cases (scalar (by_id id) jobs)) [
      | inr (r, e) ↦
          let mine = All-scalar (OwnId d) (by_id id) jobs {r = r} own e in
          let hit = scalar_sound (by_id id) jobs {r = r} e in
          let same =
            occurrence_id_injective d r.job_type t r.scheduled_for when r.scope_id named faithful
              (sym mine.id ∙ (eq_iff r.job_id id).0 hit) in
          rw e (
            found_too (by_id id) (same_occurrence t when named) jobs {r = r} e (
              own_columns t when named r same.0 (sym mine.on_minute ∙ same.1 ∙ to_minute_idem at)
                same.2))
      | inl no_id ↦ elim (Option-cases (scalar (same_occurrence t when named) jobs)) [
        | inr (r, e) ↦ rw (no_id, e, e) refl
        | inl no_key ↦
            let row = pending_row id t when named now in
            rw (no_id, no_key, scalar-append (same_occurrence t when named) jobs (row ∷ []), no_key)
              (unfold scalar in rw (own_columns t when named row refl refl refl) refl)
      ]
    ]
