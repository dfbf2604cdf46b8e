-- ===== src/Postgres/Rows.antt =====
-- The tables of migrations/ and the statements of internal/adapter/postgres/notification_repo.go on
-- them. A row has the fields of `Notification`: `rowToNotification` copies them one by one.
use event_driven_ns.Prelude.{
  ℕ, ◌+◌, Bool, true, false, not, ◌&&◌, ◌||◌, [], ◌∷◌, ◌++◌, Option, none, some, String, str_eq,
  ◌==◌, ltb, leb, if◌then◌else◌,
}
use event_driven_ns.Prelude.Int.{pos, ◌+ℤ◌, ◌-ℤ◌}
use event_driven_ns.Domain.Status.{
  Status, pending, scheduled, processing, delivered, failed, cancelled, is_status,
}
use event_driven_ns.Domain.Notification.{Uuid, Time, Notification}
use event_driven_ns.World.{World, NotificationBatch}
use event_driven_ns.Postgres.Table.{find_row, has_row, update_where, count_where}
use event_driven_ns.Postgres.Driver.{no_rows, pg, DbResult, rows, failure, Sql}

-- A column that may be NULL holds a value.
abbrev pub has_key : Option String → Option String → Bool
has_key (some k) (some j) = str_eq k j
has_key _ _ = false

abbrev pub has_id : Option Uuid → Uuid → Bool
has_id none i = false
has_id (some j) i = j == i

-- A foreign key refers to a row, or is NULL.
abbrev pub refers : Option Uuid → (Uuid → Bool) → Bool
refers none exists = true
refers (some i) exists = exists i

-- The columns that the INSERT does not name take their defaults.
unfoldable pub inserted : Notification → Notification
inserted n = record n {
  sent_at = none;
  failed_at = none;
  error_message = none;
  retry_count = 0;
  provider_message_id = none;
}

-- INSERT INTO notifications, with the constraints of the table.
unfoldable pub insert_notification : Notification → Sql Unit
unfolding has_row inserted
insert_notification n w =
    if has_row (λ r. r.id == n.id) w.notifications
    then (failure (pg "23505" "notifications_pkey"), w)
    else if has_row (λ r. has_key r.idempotency_key n.idempotency_key) w.notifications
    then (failure (pg "23505" "notifications_idempotency_key_key"), w)
    else if not (refers n.batch_id (λ i. has_row (λ b. b.id == i) w.batches))
    then (failure (pg "23503" "notifications_batch_id_fkey"), w)
    else if not (refers n.template_id (λ i. has_row (λ t. t.id == i) w.templates))
    then (failure (pg "23503" "fk_notifications_template"), w)
    else (rows tt, record w { notifications = w.notifications ++ inserted n ∷ [] })

-- The counters that the INSERT does not name are 0.
unfoldable pub row_of_batch : NotificationBatch → NotificationBatch
row_of_batch b = record b { delivered_count = pos 0; failed_count = pos 0; cancelled_count = pos 0 }

-- INSERT INTO notification_batches.
unfoldable pub insert_batch : NotificationBatch → Sql Unit
unfolding has_row row_of_batch
insert_batch b w =
    if has_row (λ r. r.id == b.id) w.batches
    then (failure (pg "23505" "notification_batches_pkey"), w)
    else (rows tt, record w { batches = w.batches ++ row_of_batch b ∷ [] })

-- A SELECT of one row.
abbrev pub one_row : {A : Type 0} → Option A → World → DbResult A × World
one_row none w = (failure no_rows, w)
one_row (some r) w = (rows r, w)

unfoldable pub select_notification : Uuid → Sql Notification
unfolding find_row
select_notification id w = one_row (find_row (λ r. r.id == id) w.notifications) w

unfoldable pub select_batch : Uuid → Sql NotificationBatch
unfolding find_row
select_batch id w = one_row (find_row (λ r. r.id == id) w.batches) w

-- SET status, sent_at, failed_at, error_message, retry_count, provider_message_id, updated_at.
unfoldable pub set_status : Notification → Notification → Notification
set_status n r = record r {
  status = n.status;
  sent_at = n.sent_at;
  failed_at = n.failed_at;
  error_message = n.error_message;
  retry_count = n.retry_count;
  provider_message_id = n.provider_message_id;
  updated_at = n.updated_at;
}

unfoldable pub update_status_row : Notification → Sql Unit
unfolding set_status update_where
update_status_row n w = (
  rows tt,
  record w { notifications = update_where (λ r. r.id == n.id) (set_status n) w.notifications },
)

-- WHERE id = $1 AND status IN ('pending','scheduled').
unfoldable pub cancellable_row : Uuid → Notification → Bool
unfolding is_status
cancellable_row id r = r.id == id && (is_status r.status pending || is_status r.status scheduled)

-- The rows that were affected.
unfoldable pub cancel_row : Uuid → Time → Sql ℕ
unfolding cancellable_row update_where count_where
cancel_row id now w = (
  rows (count_where (cancellable_row id) w.notifications),
  record w {
    notifications =
        update_where (cancellable_row id) (λ r. record r { status = cancelled; updated_at = now })
          w.notifications;
  },
)

-- The column that counts a final status.
unfoldable pub count_in : Status → Option (NotificationBatch → NotificationBatch)
count_in delivered = some (λ b. record b { delivered_count = b.delivered_count +ℤ pos 1 })
count_in failed = some (λ b. record b { failed_count = b.failed_count +ℤ pos 1 })
count_in cancelled = some (λ b. record b { cancelled_count = b.cancelled_count +ℤ pos 1 })
count_in _ = none

-- pending_count = pending_count - 1.
unfoldable pub count_down : NotificationBatch → NotificationBatch
count_down b = record b { pending_count = b.pending_count -ℤ pos 1 }

unfoldable pub increment_row : Uuid → (NotificationBatch → NotificationBatch) → Sql Unit
unfolding update_where count_down
increment_row id f w = (
  rows tt,
  record w { batches = update_where (λ r. r.id == id) (λ r. count_down (f r)) w.batches },
)

-- status = 'scheduled' AND scheduled_at <= NOW().
unfoldable pub is_due : Time → Notification → Bool
unfolding is_status
is_due now r =
    is_status r.status scheduled && elim r.scheduled_at [ none ↦ false | some t ↦ leb t now ]

-- ORDER BY scheduled_at, updated_at.
unfoldable pub scheduled_before : Notification → Notification → Bool
scheduled_before a b = elim a.scheduled_at [
  | none ↦ true
  | some s ↦ elim b.scheduled_at [ none ↦ true | some t ↦ leb s t ]
]

unfoldable pub updated_before : Notification → Notification → Bool
updated_before a b = leb a.updated_at b.updated_at

-- status = 'processing' AND updated_at < NOW() - older_than.
unfoldable pub is_stuck : Time → ℕ → Notification → Bool
unfolding is_status
is_stuck now older_than r = is_status r.status processing && ltb (r.updated_at + older_than) now
