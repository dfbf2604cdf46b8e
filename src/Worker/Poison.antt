-- ===== src/Worker/Poison.antt =====
-- A message whose notification does not exist comes back for ever.
use event_driven_ns.Prelude.{ℕ, zero, suc, String, [], ◌∷◌, ◌++◌, none, ◌≡◌, ap, ◌∙◌, arith}
use event_driven_ns.Domain.Error.{plain, err, notification_not_found}
use event_driven_ns.Domain.Notification.{Uuid}
use event_driven_ns.Platform.{Platform}
use event_driven_ns.World.{World, Message, NotificationPayload, json, tick}
use event_driven_ns.Postgres.Notifications.{get_by_id}
use event_driven_ns.Postgres.Healthy.{IsHealthy, stored}
use event_driven_ns.Queue.Consumer.{consume, consume_rounds}
use event_driven_ns.Queue.Consumer.Requeue.{backlog, returned, backlog-consume}
use event_driven_ns.App.DeliveryService.{process_delivery}
use event_driven_ns.App.DeliveryService.Silent.{process_delivery-IsQuiet}
use event_driven_ns.Worker.{work}
use event_driven_ns.Worker.Drain.{stored-consume}

module _ ⦃p : Platform⦄ (healthy : IsHealthy p) where
  missing :
      (w : World) (text : String) (id : Uuid)
      → p.uuid_parse text ≡ (id, none)
      → stored w id ≡ none
      → process_delivery text w ≡ (err (plain notification_not_found), tick w)
  unfolding process_delivery get_by_id stored
  missing w text id parses absent = rw parses (ground (arith, healthy w.step))

module _ ⦃p : Platform⦄ (healthy : IsHealthy p) (topic : String) (m : Message)
    (payload : NotificationPayload) (id : Uuid) (carries : m.value ≡ json payload)
    (parses : p.uuid_parse payload.notification_id ≡ (id, none)) where
  -- When neither the store nor Kafka fails, and whatever the number of rounds, a message for a
  -- notification that is not in the table, alone on its topic, is still the one that waits.
  pub poison_stays :
      (k : ℕ) (w : World)
      → stored w id ≡ none
      → backlog topic w ≡ m ∷ []
      → backlog topic (work k topic w) ≡ m ∷ []
  unfolding consume_rounds stored
  poison_stays zero w absent waits = waits
  poison_stays (suc k) w absent waits =
      let gone = missing healthy (tick w) payload.notification_id id parses absent in
      poison_stays k (consume process_delivery topic w)
        (stored-consume healthy topic m payload id carries parses w [] waits
          ∙ ap (λ r. stored r.1 id) gone
          ∙ absent)
        (backlog-consume healthy process_delivery process_delivery-IsQuiet topic w m [] payload
            waits carries
          ∙ ap (λ r. [] ++ returned r.0 m) gone)
