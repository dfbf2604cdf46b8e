-- ===== src/Tests/Scheduler.antt =====
-- A broker that refuses one message.
use event_driven_ns.Prelude.{
  All, [], ◌∷◌, length, ℕ, false, none, some, ◌≡◌, refl, ◌==◌, if◌then◌else◌,
}
use event_driven_ns.Domain.Status.{pending, scheduled}
use event_driven_ns.Domain.Notification.{Notification}
use event_driven_ns.Platform.{Platform}
use event_driven_ns.Postgres.Rows.{is_due, is_stuck}
use event_driven_ns.Postgres.Healthy.{stored}
use event_driven_ns.App.Scheduler.{requeue, round}
use event_driven_ns.App.Scheduler.Lost.{IsUnannounced, requeue-lost}
use event_driven_ns.App.Scheduler.Republished.{IsRequeued}
use event_driven_ns.App.Scheduler.Round.{due, round-IsRequeued}
use event_driven_ns.World.{World}
use event_driven_ns.Postgres.Table.{has_row, select_where, order_by}
use event_driven_ns.Tests.Fixtures.{platform, platform-IsHealthy, waiting, queued}

abbrev refusing : Platform
refusing = record (platform 200 none) {
  fault = λ k. if k == 2 then some "leader not available" else none;
}

-- A notification that is due, and an empty broker.
abbrev due_now : Notification
due_now = record waiting { status = scheduled; scheduled_at = some 0 }

abbrev unannounced : World
unannounced = record queued { notifications = due_now ∷ []; messages = [] }

requeue-lost_example :
    let v = (requeue ⦃p = refusing⦄ due_now unannounced).1 in
    (v.messages ≡ [])
    × IsUnannounced ⦃p = refusing⦄ due_now v
    × ((m' : Notification) × (stored v 3 ≡ some m')
        × (m'.status ≡ pending)
        × ((now : ℕ) → is_due now m' ≡ false)
        × ((now older_than : ℕ) → is_stuck now older_than m' ≡ false))
unfolding stored has_row
requeue-lost_example =
    requeue-lost ⦃p = refusing⦄ due_now due_now unannounced "leader not available" refl refl refl
      refl

-- A notification that is due.
abbrev planned : World
planned = record queued { notifications = due_now ∷ waiting ∷ [] }

one_is_due : length (due 0 planned.notifications) ≡ 1
unfolding due select_where order_by is_due
one_is_due = refl

round-IsRequeued_example :
    All
      (λ n. IsRequeued ⦃p = platform 200 none⦄ n (round ⦃p = platform 200 none⦄ planned).1)
      (due 0 planned.notifications)
round-IsRequeued_example =
    round-IsRequeued ⦃p = platform 200 none⦄ (platform-IsHealthy 200 none) planned
