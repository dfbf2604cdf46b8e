-- ===== src/Tests/Final.antt =====
-- A notification that is delivered, with its message still in the queue.
use mathlib.Core.Option
use event_driven_ns.Prelude.{none, some, [], ◌∷◌, ◌≡◌, refl}
use event_driven_ns.Domain.Status.{delivered, processing}
use event_driven_ns.World.{World}
use event_driven_ns.Postgres.Table.{has_row, find_row}
use event_driven_ns.Postgres.Healthy.{stored}
use event_driven_ns.App.DeliveryService.{is_settled, process_delivery}
use event_driven_ns.Queue.Consumer.{consume}
use event_driven_ns.Program.Reachable.{consumed}
use event_driven_ns.Program.Final.Kept.{Run, over, whole, statement, Run-HasFinal}
use event_driven_ns.Program.Final.Statements.{read, updated}
use event_driven_ns.Platform.{Platform}
use event_driven_ns.Domain.Notification.{Notification}
use event_driven_ns.Domain.Error.{ok}
use event_driven_ns.Postgres.Notifications
use event_driven_ns.Postgres.Driver.{run, or_missing, query}
use event_driven_ns.Postgres.Rows.{select_notification}
use event_driven_ns.Tests.Fixtures.{platform, waiting, queued}

-- One that waits, beside one that is delivered and has its message still in the queue.
abbrev waiting_too : Notification
waiting_too = record waiting { id = 4 }

abbrev redelivered : World
redelivered = record queued {
  notifications = record waiting { status = delivered } ∷ waiting_too ∷ [];
}

abbrev overloaded_platform : Platform
overloaded_platform = platform 503 none

-- A worker reads the one that waits.
abbrev while_read : World
while_read = (Notifications.get_by_id ⦃p = overloaded_platform⦄ 4 redelivered).1

read_other : (Notifications.get_by_id ⦃p = overloaded_platform⦄ 4 redelivered).0 ≡ ok waiting_too
unfolding Notifications.get_by_id select_notification find_row run or_missing query
read_other = refl

-- Meanwhile another consumes the message of the one that is delivered.
abbrev consumed_again : World
consumed_again =
    consume ⦃p = overloaded_platform⦄ (process_delivery ⦃p = overloaded_platform⦄)
      "notifications.low" while_read

-- The first one goes on.
abbrev then_updated : World
then_updated =
    (Notifications.update_status ⦃p = overloaded_platform⦄
      (record waiting_too { status = processing }) consumed_again).1

three_steps : Run redelivered [] then_updated (4 ∷ [])
unfolding has_row is_settled
three_steps =
    statement consumed_again then_updated (4 ∷ []) (4 ∷ [])
      (whole while_read consumed_again (4 ∷ [])
        (statement redelivered while_read [] (4 ∷ []) over
          (read overloaded_platform 4 waiting_too read_other refl))
        (consumed overloaded_platform "notifications.low"))
      (updated overloaded_platform (record waiting_too { status = processing }) refl)

Run-HasFinal_example : Option.map (λ r. r.status) (stored then_updated 3) ≡ some delivered
unfolding is_settled has_row
Run-HasFinal_example =
    Run-HasFinal 3 delivered redelivered then_updated [] (4 ∷ []) refl
      ((λ own. refl, (λ other. absurd (cc), tt)), refl) tt three_steps
