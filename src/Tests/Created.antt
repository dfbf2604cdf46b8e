-- ===== src/Tests/Created.antt =====
-- A notification from its request to its end, and the row of another.
use mathlib.Core.Option
use event_driven_ns.Prelude.{
  ◌/◌, ◌*◌, str_eq, if◌then◌else◌, ℕ, ◌≤◌, [], ◌∷◌, none, some, String, ◌≡◌, refl,
}
use event_driven_ns.Domain.Error.{ok}
use event_driven_ns.Domain.Channel.{push}
use event_driven_ns.Domain.Priority.{low}
use event_driven_ns.Domain.Notification.{Notification, Variables, new_notification}
use event_driven_ns.Domain.Validation.{
  validate_channel, validate_recipient, validate_content, validate_priority,
}
use event_driven_ns.Postgres.Columns.{
  insert_columns, row_to_notification, filled, with_times, row_to_notification-insert_columns, made,
}
use event_driven_ns.Postgres.Healthy.{stored}
use event_driven_ns.Postgres.Idempotency
use event_driven_ns.Postgres.Idempotency.{select_key, check_result}
use event_driven_ns.Postgres.Driver.{query}
use event_driven_ns.Postgres.Table.{find_row, select_where}
use event_driven_ns.Queue.Publisher.{topic_for_priority}
use event_driven_ns.Queue.Consumer.Requeue.{backlog}
use event_driven_ns.App.NotificationService.{create, existing_id}
use event_driven_ns.Worker.{work}
use event_driven_ns.Worker.Drain.{IsOver}
use event_driven_ns.Worker.Created.{create-work}
use event_driven_ns.Tests.Fixtures.{platform, platform-IsHealthy, platform-UuidRoundTrip, queued}
use event_driven_ns.Tests.Repeat.{again, first, first_made}

-- A provider that accepts.
create-work_example :
    let v = (create ⦃p = platform 200 none⦄ again queued).1 in
    (k : ℕ) × (k ≤ 5)
    × (backlog "notifications.high" (work ⦃p = platform 200 none⦄ k "notifications.high" v) ≡ [])
    × IsOver (
        Option.map
          (λ r. r.status)
          (stored (work ⦃p = platform 200 none⦄ k "notifications.high" v) 2))
unfolding existing_id Idempotency.check query select_key find_row check_result topic_for_priority
    backlog select_where
create-work_example =
    create-work ⦃p = platform 200 none⦄ (platform-IsHealthy 200 none)
      (platform-UuidRoundTrip 200 none) "notifications.high" again queued first refl refl refl refl
      first_made

-- JSON as a list of the keys and values, for no more than one variable.
abbrev one_variable : Variables → String
one_variable [] = "{}"
one_variable ((key, value) ∷ variables) = key

abbrev read_variable : String → Variables
read_variable text = if str_eq text "{}" then [] else (text, "x") ∷ []

abbrev plain : Notification
plain = made 1 2 push "token" "hello" low none

plain_made : new_notification 1 2 push "token" "hello" low none ≡ ok plain
unfolding new_notification validate_channel validate_recipient validate_content validate_priority
plain_made = refl

-- Whole microseconds.
abbrev microseconds : ℕ → ℕ
microseconds t = t / 1000 * 1000

row_to_notification-insert_columns_example :
    let m = filled (some 9) (some "k") none (("name", "x") ∷ []) plain in
    let read =
      row_to_notification one_variable read_variable
        (insert_columns one_variable read_variable microseconds m) in
    (read ≡ with_times microseconds m)
    × (microseconds 2 ≡ 2 → Option.map microseconds none ≡ none → read ≡ m)
row_to_notification-insert_columns_example =
    row_to_notification-insert_columns one_variable read_variable microseconds 1 2 push "token"
      "hello" low none plain plain_made (some 9) (some "k") none (("name", "x") ∷ []) refl
