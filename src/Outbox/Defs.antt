-- ===== src/Outbox/Defs.antt =====
-- `NotificationOutbox` of src/betmaxxing/providers/notifications/outbox.py over its table. The clock's
-- reading is an argument.
use betmaxxing.Prelude.{
  ℕ, ◌+◌, String, Bool, true, false, ◌&&◌, Option, none, some, List, [], ◌∷◌, ◌++◌, str_eq,
}
use betmaxxing.Table.{scalar, select, update}

pub record NotificationOutboxRow : Type 0 where
  pub id : ℕ
  pub job_id : String
  pub alert_key : String
  pub channel : String
  pub claimed_at : ℕ
  pub sent_at : Option ℕ

-- the columns of the unique constraint
pub record DeliveryKey : Type 0 where
  pub job_id : String
  pub alert_key : String
  pub channel : String

-- `next_id` is the autoincrement.
pub record OutboxDb : Type 0 where
  pub rows : List NotificationOutboxRow
  pub next_id : ℕ

abbrev pub of_key : DeliveryKey → NotificationOutboxRow → Bool
of_key k r =
    str_eq r.job_id k.job_id && (str_eq r.alert_key k.alert_key && str_eq r.channel k.channel)

abbrev pub claim_row : ℕ → DeliveryKey → ℕ → NotificationOutboxRow
claim_row id k moment = record {
  id = id;
  job_id = k.job_id;
  alert_key = k.alert_key;
  channel = k.channel;
  claimed_at = moment;
  sent_at = none;
}

-- `claim`: the insert, or the `IntegrityError` of the unique constraint
unfoldable pub claim : DeliveryKey → ℕ → OutboxDb → Bool × OutboxDb
claim k moment db = elim (scalar (of_key k) db.rows) [
  | some r ↦ (false, db)
  | none ↦ (
    true,
    record { rows = db.rows ++ claim_row db.next_id k moment ∷ []; next_id = db.next_id + 1 },
  )
]

abbrev pub is_unsent : NotificationOutboxRow → Bool
is_unsent r = elim r.sent_at [ none ↦ true | some t ↦ false ]

abbrev pub sent : ℕ → NotificationOutboxRow → NotificationOutboxRow
sent moment r = record r { sent_at = some moment }

unfoldable pub mark_sent : DeliveryKey → ℕ → OutboxDb → OutboxDb
mark_sent k moment db = record db {
  rows = update (λ r. of_key k r && is_unsent r) (sent moment) db.rows;
}

-- the rows stand in the order of their ids
unfoldable pub entries_for : String → OutboxDb → List NotificationOutboxRow
entries_for job_id db = select (λ r. str_eq r.job_id job_id) db.rows

unfoldable pub unsent : OutboxDb → List NotificationOutboxRow
unsent db = select is_unsent db.rows

abbrev pub empty_outbox : OutboxDb
empty_outbox = record { rows = []; next_id = 1 }
