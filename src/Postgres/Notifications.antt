-- ===== src/Postgres/Notifications.antt =====
-- The methods of internal/adapter/postgres/notification_repo.go.
use event_driven_ns.Prelude.{
  ℕ, Bool, true, ◌&&◌, ◌||◌, List, [], ◌∷◌, Option, none, some, ◌==◌, ltb, leb, take, if◌then◌else◌,
}
use event_driven_ns.Prelude.Int.{pos}
use event_driven_ns.Domain.Error.{
  plain, notification_not_found, batch_not_found, invalid_status_transition,
}
use event_driven_ns.Domain.Status.{Status, is_status}
use event_driven_ns.Domain.Notification.{Uuid, Time, Notification}
use event_driven_ns.Prelude.Int.{ℤ, pos, negsuc}
use event_driven_ns.Domain.Channel.{Channel, is_channel}
use event_driven_ns.Platform.{Platform}
use event_driven_ns.World.{M, NotificationBatch, ◌>>=◌, ◌>>◌, pure, raise}
use event_driven_ns.Postgres.Table.{select_where, order_by}
use event_driven_ns.Postgres.Rows.{
  insert_notification, insert_batch, select_notification, select_batch, update_status_row,
  cancel_row, count_in, increment_row, is_due, scheduled_before, is_stuck, updated_before, has_id,
}
use event_driven_ns.Postgres.Driver.{
  Sql, rows, to_error, wrap_idempotency_error, or_missing, run, transaction,
}

-- `NotificationFilter`; the page size is a Go `int`.
pub record NotificationFilter : Type 0 where
  pub status : Option Status
  pub channel : Option Channel
  pub date_from : Option Time
  pub date_to : Option Time
  pub batch_id : Option Uuid
  pub cursor : Option Uuid
  pub page_size : ℤ

-- A condition is added to the query only for a field that is given.
abbrev pub given : {A : Type 0} → Option A → (A → Bool) → Bool
given none test = true
given (some a) test = test a

-- The WHERE clause that `List` builds.
unfoldable pub selected : NotificationFilter → Notification → Bool
unfolding is_status is_channel
selected f r =
    given f.status (is_status r.status)
    && (given f.channel (is_channel r.channel)
        && (given f.batch_id (has_id r.batch_id)
            && (given f.date_from (λ t. leb t r.created_at)
                && (given f.date_to (λ t. leb r.created_at t)
                    && given f.cursor (λ i. ltb r.id i)))))

-- ORDER BY created_at DESC, id DESC.
unfoldable pub newer_first : Notification → Notification → Bool
newer_first a b = ltb b.created_at a.created_at || (a.created_at == b.created_at && leb b.id a.id)

-- A size that is not between 1 and 100 becomes 20.
unfoldable pub effective_page_size : ℤ → ℕ
effective_page_size (pos n) = if leb n 0 || ltb 100 n then 20 else n
effective_page_size (negsuc n) = 20

-- The SELECT of `ListDueScheduled`, of `ListStuckProcessing`, and the one that `List` builds.
unfoldable pub due_rows : ℕ → Time → Sql (List Notification)
unfolding is_due scheduled_before select_where order_by
due_rows limit now w =
    (rows (take limit (order_by scheduled_before (select_where (is_due now) w.notifications))), w)

unfoldable pub stuck_rows : ℕ → ℕ → Time → Sql (List Notification)
unfolding is_stuck updated_before select_where order_by
stuck_rows older_than limit now w = (
  rows (
      take limit
        (order_by updated_before (select_where (is_stuck now older_than) w.notifications))),
  w,
)

unfoldable pub page_rows : NotificationFilter → Sql (List Notification)
unfolding selected newer_first effective_page_size select_where order_by
page_rows f w = (
  rows (
      take (effective_page_size f.page_size)
        (order_by newer_first (select_where (selected f) w.notifications))),
  w,
)

module _ ⦃p : Platform⦄ where
  unfoldable pub create : Notification → M Unit
  unfolding insert_notification run wrap_idempotency_error
  create n = run wrap_idempotency_error (insert_notification n)

  -- The loop of `CreateBatch`.
  unfoldable pub insert_all : List Notification → M Unit
  unfolding insert_notification run wrap_idempotency_error
  insert_all [] = pure tt
  insert_all (n ∷ ns) = do run wrap_idempotency_error (insert_notification n); insert_all ns

  unfoldable pub create_batch : NotificationBatch → List Notification → M Unit
  unfolding insert_batch insert_all run to_error transaction
  create_batch batch ns = transaction (do run to_error (insert_batch batch); insert_all ns)

  unfoldable pub get_by_id : Uuid → M Notification
  unfolding select_notification run or_missing
  get_by_id id = run (or_missing notification_not_found) (select_notification id)

  unfoldable pub get_batch_by_id : Uuid → M NotificationBatch
  unfolding select_batch run or_missing
  get_batch_by_id id = run (or_missing batch_not_found) (select_batch id)

  unfoldable pub update_status : Notification → M Unit
  unfolding update_status_row run to_error
  update_status n = run to_error (update_status_row n)

  unfoldable pub cancel : Uuid → M Unit
  unfolding cancel_row run to_error
  cancel id w =
      (do
        affected ← run to_error (cancel_row id (p.now w.step))
        if affected == 0 then raise (plain invalid_status_transition) else pure tt)
        w

  -- The `switch` on the status; its default is no statement at all.
  unfoldable pub increment_batch_counter : Uuid → Status → M Unit
  unfolding increment_row count_in run to_error
  increment_batch_counter batch_id status = elim (count_in status) [
    | none ↦ pure tt
    | some f ↦ run to_error (increment_row batch_id f)
  ]

  unfoldable pub list_due_scheduled : ℕ → M (List Notification)
  unfolding due_rows run to_error
  list_due_scheduled limit w = run to_error (due_rows limit (p.now w.step)) w

  unfoldable pub list_stuck_processing : ℕ → ℕ → M (List Notification)
  unfolding stuck_rows run to_error
  list_stuck_processing older_than limit w =
      run to_error (stuck_rows older_than limit (p.now w.step)) w

  unfoldable pub list : NotificationFilter → M (List Notification)
  unfolding page_rows run to_error
  list f = run to_error (page_rows f)
