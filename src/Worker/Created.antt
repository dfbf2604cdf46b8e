-- ===== src/Worker/Created.antt =====
-- From a request to the end of its notification: cmd/api and then cmd/worker.
use mathlib.Core.Option
use event_driven_ns.Prelude.{ℕ, ◌≤◌, [], none, some, String, ◌≡◌, ap, ◌∙◌, arith}
use event_driven_ns.Domain.Error.{ok}
use event_driven_ns.Domain.Notification.{Notification}
use event_driven_ns.Platform.{Platform, UuidRoundTrip}
use event_driven_ns.World.{World}
use event_driven_ns.Postgres.Rows.{inserted}
use event_driven_ns.Postgres.Healthy.{IsHealthy, stored}
use event_driven_ns.Queue.Publisher.{topic_for_priority}
use event_driven_ns.Queue.Consumer.Requeue.{backlog}
use event_driven_ns.App.NotificationService.{CreateNotificationInput, existing_id, create}
use event_driven_ns.App.NotificationService.Published.{create-IsPublished}
use event_driven_ns.Worker.{work}
use event_driven_ns.Worker.Drain.{IsOver, drain}

-- When neither the store nor the broker fails and identifiers survive being written and read: a Create
-- that succeeds, with no earlier request for its key, with no date to wait for, and whose topic had no
-- message, is followed within five rounds of the topic's consumer, whatever the provider answers, by a
-- state in which its notification is delivered or failed and no message of the topic waits.
pub create-work :
    ⦃p : Platform⦄ (healthy : IsHealthy p) (round_trip : UuidRoundTrip p) (topic : String)
    (input : CreateNotificationInput) (w : World) (n : Notification)
    → (existing_id input.idempotency_key w).0 ≡ ok none
    → input.scheduled_at ≡ none
    → topic_for_priority input.priority ≡ some topic
    → backlog topic w ≡ []
    → (create input w).0 ≡ ok n
    → (k : ℕ) × (k ≤ 5)
      × (backlog topic (work k topic (create input w).1) ≡ [])
      × IsOver (Option.map (λ r. r.status) (stored (work k topic (create input w).1) n.id))
unfolding inserted
create-work ⦃p = p⦄ healthy round_trip topic input w n unfound now_due known quiet made_ok =
    let (((m, (load, waits, carries, names)), there), ready) =
      create-IsPublished healthy topic input w n unfound now_due known quiet made_ok in
    let (k, bound, (left, over)) =
      drain healthy topic m load n.id carries (ap p.uuid_parse names ∙ round_trip.parse_string n.id)
        4 (create input w).1 (inserted n) waits there ready.unsettled
        (omega (arith, ready.attempts)) in
    (k, bound, left, over)
