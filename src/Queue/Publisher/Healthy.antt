-- ===== src/Queue/Publisher/Healthy.antt =====
-- `Enqueue` of internal/adapter/queue/publisher.go, when the broker takes the message.
use event_driven_ns.Prelude.{[], ◌∷◌, ◌++◌, some, String, ◌≡◌, arith}
use event_driven_ns.Domain.Error.{ok}
use event_driven_ns.Domain.Notification.{Notification}
use event_driven_ns.Platform.{Platform}
use event_driven_ns.World.{World, json, tick}
use event_driven_ns.Postgres.Healthy.{IsHealthy}
use event_driven_ns.Queue.Publisher.{topic_for_priority, enqueue, write_message, payload}

module _ ⦃p : Platform⦄ (healthy : IsHealthy p) (topic : String) where
  pub enqueue-healthy :
      (n : Notification) (w : World)
      → topic_for_priority n.priority ≡ some topic
      → enqueue n w ≡ (
        ok tt,
        record w {
          step = (tick w).step;
          messages =
              w.messages
              ++ record { topic = topic; key = p.uuid_string n.id; value = json (payload n w) }
                ∷ [];
        },
      )
  unfolding enqueue write_message
  enqueue-healthy n w known = ground (arith, healthy w.step)
