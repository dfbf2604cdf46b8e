-- ===== src/Tests/Delivery.antt =====
-- Deliveries of one notification.
use mathlib.Core.Option
use event_driven_ns.Prelude.{◌≢◌, false, ℕ, ◌≤◌, [], ◌∷◌, ◌++◌, none, some, ◌≡◌, refl, arith}
use event_driven_ns.Domain.Error.{ok}
use event_driven_ns.Domain.Status.{cancelled}
use event_driven_ns.Domain.Notification.{cancellable}
use event_driven_ns.World.{World, tick}
use event_driven_ns.Postgres.Healthy.{stored}
use event_driven_ns.App.DeliveryService.{process_delivery, is_settled, deliver}
use event_driven_ns.App.DeliveryService.Overtaken.{cancel-overtaken}
use event_driven_ns.App.NotificationService.{cancel}
use event_driven_ns.Provider.{send}
use event_driven_ns.App.DeliveryService.Outcome.{summary, expected}
use event_driven_ns.App.DeliveryService.Process.{reply, answer, process_delivery_lem}
use event_driven_ns.Queue.Consumer.{consume}
use event_driven_ns.Queue.Consumer.Requeue.{backlog, returned, backlog-consume}
use event_driven_ns.App.DeliveryService.Silent.{process_delivery-IsQuiet}
use event_driven_ns.Worker.{work}
use event_driven_ns.Worker.Drain.{IsOver, drain}
use event_driven_ns.Worker.Poison.{poison_stays}
use event_driven_ns.Tests.Fixtures.{
  platform, platform-IsHealthy, waiting, waiting_payload, waiting_message, queued,
}

stored-waiting : stored queued 3 ≡ some waiting
unfolding stored
stored-waiting = refl

waiting_unsettled : is_settled waiting.status ≡ false
unfolding is_settled
waiting_unsettled = refl

-- A provider that accepts, and one that is overloaded.
process_delivery_lem_example :
    let w = (process_delivery ⦃p = platform 200 none⦄ "|||" queued).1 in
    (Option.map summary (stored w 3)
      ≡ some (expected waiting (answer ⦃p = platform 200 none⦄ waiting queued)))
    × ((process_delivery ⦃p = platform 200 none⦄ "|||" queued).0
        ≡ reply waiting (answer ⦃p = platform 200 none⦄ waiting queued))
    × ((j : ℕ) → j ≢ 3 → stored w j ≡ stored queued j)
process_delivery_lem_example =
    process_delivery_lem ⦃p = platform 200 none⦄ queued "|||" 3 waiting refl stored-waiting
      (platform-IsHealthy 200 none) waiting_unsettled

queued-backlog : backlog "notifications.low" queued ≡ waiting_message ∷ []
unfolding backlog
queued-backlog = refl

backlog-consume_example :
    backlog "notifications.low" (
      consume ⦃p = platform 503 none⦄
        (process_delivery ⦃p = platform 503 none⦄)
        "notifications.low"
        queued)
    ≡ []
      ++ returned (process_delivery ⦃p = platform 503 none⦄ "|||" (tick queued)).0 waiting_message
backlog-consume_example =
    backlog-consume ⦃p = platform 503 none⦄ (platform-IsHealthy 503 none)
      (process_delivery ⦃p = platform 503 none⦄) (process_delivery-IsQuiet ⦃p = platform 503 none⦄)
      "notifications.low" queued waiting_message [] waiting_payload queued-backlog refl

drain_example :
    (k : ℕ) × (k ≤ 2)
    × ((backlog "notifications.low" (work ⦃p = platform 503 none⦄ k "notifications.low" queued)
          ≡ [])
        × IsOver (
            Option.map
              (λ n. n.status)
              (stored (work ⦃p = platform 503 none⦄ k "notifications.low" queued) 3)))
drain_example =
    drain ⦃p = platform 503 none⦄ (platform-IsHealthy 503 none) "notifications.low" waiting_message
      waiting_payload 3 refl refl 1 queued waiting queued-backlog stored-waiting waiting_unsettled
      (omega arith)

-- The same message with no row behind it.
abbrev orphaned : World
orphaned = record queued { notifications = [] }

poison_stays_example :
    backlog "notifications.low" (work ⦃p = platform 200 none⦄ 1000 "notifications.low" orphaned)
    ≡ waiting_message ∷ []
unfolding stored backlog
poison_stays_example =
    poison_stays ⦃p = platform 200 none⦄ (platform-IsHealthy 200 none) "notifications.low"
      waiting_message waiting_payload 3 refl refl 1000 orphaned refl refl

-- The client cancels while the worker has the notification in hand.
abbrev cancelled_meanwhile : World
cancelled_meanwhile = (cancel ⦃p = platform 200 none⦄ 3 queued).1

cancel-overtaken_example :
    let v = cancelled_meanwhile in
    ((cancel ⦃p = platform 200 none⦄ 3 queued).0 ≡ ok tt)
    × (Option.map (λ m. m.status) (stored v 3) ≡ some cancelled)
    × (Option.map (λ m. m.status) (stored (deliver ⦃p = platform 200 none⦄ waiting v).1 3)
        ≡ some (expected waiting (send ⦃p = platform 200 none⦄ waiting (tick (tick v))).0).status)
    × ((expected waiting (send ⦃p = platform 200 none⦄ waiting (tick (tick v))).0).status
        ≢ cancelled)
unfolding cancellable
cancel-overtaken_example =
    cancel-overtaken ⦃p = platform 200 none⦄ (platform-IsHealthy 200 none) queued 3 waiting
      stored-waiting refl
