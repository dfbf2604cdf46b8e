-- ===== src/Postgres/Cancel.antt =====
-- What the UPDATE of `Cancel` in internal/adapter/postgres/notification_repo.go does to the table.
use event_driven_ns.Prelude.{◌==◌, ◌||◌, true, some, ◌≡◌, refl, ◌≤◌, arith, if◌then◌else◌}
use event_driven_ns.Domain.Error.{ok}
use event_driven_ns.Domain.Status.{
  Status, is_status, pending, scheduled, processing, delivered, failed, cancelled,
}
use event_driven_ns.Domain.Notification.{Uuid, Time, Notification, cancellable}
use event_driven_ns.Platform.{Platform}
use event_driven_ns.World.{World, tick}
use event_driven_ns.Postgres.Table.{update_where, count_where}
use event_driven_ns.Postgres.Table.Lookup.{find_row-update_where_and, count_where-found}
use event_driven_ns.Postgres.Rows.{cancellable_row}
use event_driven_ns.Postgres.Notifications
use event_driven_ns.Postgres.Healthy.{IsHealthy, stored}

abbrev pub cancelled_at : Time → Notification → Notification
cancelled_at now r = record r { status = cancelled; updated_at = now }

-- The WHERE clause and the method of the domain agree on what can be cancelled.
is_status-cancellable :
    (s : Status) → (is_status s pending || is_status s scheduled) ≡ cancellable s
unfolding is_status cancellable
is_status-cancellable pending = refl
is_status-cancellable scheduled = refl
is_status-cancellable processing = refl
is_status-cancellable delivered = refl
is_status-cancellable failed = refl
is_status-cancellable cancelled = refl
is_status-cancellable (Status.other s) = refl

module _ ⦃p : Platform⦄ (healthy : IsHealthy p) (w : World) (id : Uuid) (n : Notification)
    (found : stored w id ≡ some n) (open_status : cancellable n.status ≡ true) where
  affected : 1 ≤ count_where (cancellable_row id) w.notifications
  unfolding stored cancellable_row
  affected =
      count_where-found (λ (r : Notification). r.id) id
        (λ r. is_status r.status pending || is_status r.status scheduled) n w.notifications found
        (rw (is_status-cancellable n.status) open_status)

  pub cancel_lem : Notifications.cancel id w ≡ (
    ok tt,
    record (tick w) {
      notifications =
          update_where (cancellable_row id) (cancelled_at (p.now w.step)) w.notifications;
    },
  )
  unfolding Notifications.cancel
  cancel_lem = ground (arith, healthy w.step, affected)

-- The rows after the update.
pub stored-cancelled :
    (w : World) (id j : Uuid) (now : Time) (n : Notification)
    → stored w id ≡ some n
    → cancellable n.status ≡ true
    → stored
        (record w {
          notifications = update_where (cancellable_row id) (cancelled_at now) w.notifications;
        })
        j
      ≡ (if id == j then some (cancelled_at now n) else stored w j)
unfolding stored cancellable_row
stored-cancelled w id j now n found open_status = ground (
  arith,
  find_row-update_where_and (λ (r : Notification). r.id) j id
      (λ r. is_status r.status pending || is_status r.status scheduled) (cancelled_at now)
      w.notifications (λ r. refl),
  is_status-cancellable n.status,
)
