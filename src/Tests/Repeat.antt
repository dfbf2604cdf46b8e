-- ===== src/Tests/Repeat.antt =====
-- A request that is repeated with its idempotency key.
use event_driven_ns.Prelude.{
  ℕ, List, ◌≤◌, ◌++◌, ◌≢◌, ◌∷◌, [], ◌+◌, [], none, some, ◌≡◌, refl, ltb, true,
}
use event_driven_ns.Domain.Error.{ok}
use event_driven_ns.Domain.Channel.{push}
use event_driven_ns.Domain.Priority.{high}
use event_driven_ns.Domain.Status.{pending}
use event_driven_ns.Domain.Notification.{Notification, new_notification}
use event_driven_ns.Domain.Validation.{
  validate_channel, validate_recipient, validate_content, validate_priority,
}
use event_driven_ns.Postgres.Driver.{query, run}
use event_driven_ns.Postgres.Rows.{insert_notification, inserted}
use event_driven_ns.Postgres.Notifications
use event_driven_ns.Postgres.Idempotency
use event_driven_ns.Postgres.Idempotency.{select_key, add_key, check_result}
use event_driven_ns.Queue.Publisher.{enqueue, topic_for_priority, write_message}
use event_driven_ns.App.NotificationService.{existing_id, create_new, content_of, build, publish}
use event_driven_ns.App.NotificationService.FirstCreate.{create-then_repeat}
use event_driven_ns.World.{KeyRow, time_now, new_uuid, World, tick}
use event_driven_ns.Postgres.Table.{find_row, has_row}
use event_driven_ns.Postgres.Idempotency.{is_live, idempotency_ttl}
use event_driven_ns.Postgres.Healthy.{stored}
use event_driven_ns.App.NotificationService.{CreateNotificationInput, create, remember}
use event_driven_ns.App.NotificationService.Repeat.{live_row}
use event_driven_ns.App.NotificationService.Expired.{create-expired}
use event_driven_ns.Tests.Fixtures.{
  waiting, platform, platform-IsHealthy, platform-UuidRoundTrip, queued,
}

abbrev pub again : CreateNotificationInput
again = record {
  channel = push;
  recipient = "another token";
  content = "hello again";
  priority = high;
  scheduled_at = none;
  idempotency_key = some "k";
  template_id = none;
  template_variables = [];
}

-- What the first request makes.
abbrev pub first : Notification
first = record {
  id = 2;
  batch_id = none;
  idempotency_key = some "k";
  channel = push;
  recipient = "another token";
  content = "hello again";
  priority = high;
  status = pending;
  scheduled_at = none;
  sent_at = none;
  failed_at = none;
  error_message = none;
  retry_count = 0;
  max_retries = 5;
  provider_message_id = none;
  template_id = none;
  template_variables = [];
  created_at = 1;
  updated_at = 1;
}

pub first_made : (create ⦃p = platform 200 none⦄ again queued).0 ≡ ok first
unfolding create existing_id Idempotency.check query select_key find_row is_live check_result
    create_new content_of build time_now new_uuid new_notification validate_channel
    validate_recipient validate_content validate_priority Notifications.create run
    insert_notification has_row remember Idempotency.set_nx add_key publish enqueue
    topic_for_priority write_message
first_made = refl

create-then_repeat_example :
    let v = (create ⦃p = platform 200 none⦄ again queued).1 in
    (stored v 2 ≡ some (inserted first))
    × ((call : ℕ) × ((queued.step ≤ call)
          × ((call ≤ v.step)
              × ((x : World) (more : List KeyRow) (m : Notification)
                    (input' : CreateNotificationInput)
                  → x.keys ≡ v.keys ++ more
                  → stored x 2 ≡ some m
                  → ltb x.step (call + idempotency_ttl) ≡ true
                  → input'.idempotency_key ≡ some "k"
                  → create ⦃p = platform 200 none⦄ input' x ≡ (ok m, tick (tick x))))))
unfolding has_row
create-then_repeat_example =
    create-then_repeat ⦃p = platform 200 none⦄ "k" (platform-IsHealthy 200 none)
      (platform-UuidRoundTrip 200 none) again queued first refl refl first_made

-- A day later: the row of the key is dead, and the notification is still there.
abbrev day_later : World
day_later = record queued {
  notifications = record waiting { idempotency_key = some "k" } ∷ [];
  keys = record { key = "k"; notification_id = 3; expires_at = 0 } ∷ [];
}

create-expired_example : (create ⦃p = platform 200 none⦄ again day_later).0 ≢ ok first
unfolding live_row has_row
create-expired_example =
    create-expired ⦃p = platform 200 none⦄ "k" again day_later refl refl refl first
