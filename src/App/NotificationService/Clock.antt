-- ===== src/App/NotificationService/Clock.antt =====
-- `Create` of internal/app/notification_service.go does not take back the calls of the clock.
use event_driven_ns.Prelude.{◌≤◌, String, none, some, arith}
use event_driven_ns.Domain.Notification.{Notification}
use event_driven_ns.Platform.{Platform}
use event_driven_ns.World.{World, time_now, new_uuid}
use event_driven_ns.Postgres.Driver.{run, query}
use event_driven_ns.Postgres.Rows.{insert_notification}
use event_driven_ns.Postgres.Templates
use event_driven_ns.Postgres.Templates.{select_template}
use event_driven_ns.Postgres.Notifications
use event_driven_ns.Postgres.Idempotency
use event_driven_ns.Postgres.Idempotency.{add_key}
use event_driven_ns.App.NotificationService.{CreateNotificationInput, content_of, build, remember}

module _ ⦃p : Platform⦄ where
  pub content_of_clock :
      (input : CreateNotificationInput) (w : World) → w.step ≤ (content_of input w).1.step
  unfolding content_of Templates.get_by_id select_template run query
  content_of_clock input w = ground arith

  pub build_clock :
      (input : CreateNotificationInput) (content : String) (w : World)
      → w.step ≤ (build input none content w).1.step
  unfolding build time_now new_uuid
  build_clock input content w = ground arith

  pub create_clock : (n : Notification) (w : World) → w.step ≤ (Notifications.create n w).1.step
  unfolding Notifications.create insert_notification run query
  create_clock n w = ground arith

  pub remember_clock :
      (key : String) (n : Notification) (w : World) → w.step ≤ (remember (some key) n w).1.step
  unfolding remember Idempotency.set_nx add_key run query time_now
  remember_clock key n w = ground arith
