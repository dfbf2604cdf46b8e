-- ===== src/Queue/Publisher.antt =====
-- internal/adapter/queue/publisher.go.
pub mod Healthy
use Prim.Native.String.{◌++◌ as append}
use event_driven_ns.Prelude.{[], ◌∷◌, ◌++◌, Option, none, some, String}
use event_driven_ns.Domain.Error.{foreign, ok, err}
use event_driven_ns.Domain.Channel
use event_driven_ns.Domain.Priority
use event_driven_ns.Domain.Priority.{Priority, high, normal, low}
use event_driven_ns.Domain.Notification.{Notification}
use event_driven_ns.Platform.{Platform}
use event_driven_ns.World.{World, M, NotificationPayload, json, Message, pure, tick}

-- `topicForPriority[priority]`.
unfoldable pub topic_for_priority : Priority → Option String
topic_for_priority high = some "notifications.high"
topic_for_priority normal = some "notifications.normal"
topic_for_priority low = some "notifications.low"
topic_for_priority (Priority.other s) = none

module _ ⦃p : Platform⦄ where
  -- `WriteMessages` of one message: it is at the end of its topic, or the write failed.
  unfoldable pub write_message : Message → M Unit
  write_message m w = elim (p.fault w.step) [
    | none ↦ (ok tt, record w { step = (tick w).step; messages = w.messages ++ m ∷ [] })
    | some reason ↦ (err (foreign reason), tick w)
  ]

  unfoldable pub payload : Notification → World → NotificationPayload
  unfolding Channel.to_string
  payload n w = record {
    notification_id = p.uuid_string n.id;
    channel = Channel.to_string n.channel;
    carrier = p.carrier w.step;
  }

  unfoldable pub enqueue : Notification → M Unit
  unfolding topic_for_priority write_message payload Priority.to_string
  enqueue n w = elim (topic_for_priority n.priority) [
    | none ↦ (err (foreign (append "unknown priority: " (Priority.to_string n.priority))), w)
    | some topic ↦
        write_message
          (record { topic = topic; key = p.uuid_string n.id; value = json (payload n w) }) w
  ]

  -- A scheduled notification is not published: the scheduler finds it in the table.
  unfoldable pub enqueue_scheduled : Notification → M Unit
  enqueue_scheduled n = pure tt
