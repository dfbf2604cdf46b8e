-- ===== src/Queue/Consumer.antt =====
-- internal/adapter/queue/consumer.go: the loop of `consume`, for one topic and its reader.
pub mod Requeue
pub mod Lifecycle
use event_driven_ns.Prelude.{ℕ, List, [], ◌∷◌, Option, none, some, String, str_eq, if◌then◌else◌}
use event_driven_ns.Domain.Error.{Error, Result, ok, err}
use event_driven_ns.Platform.{Platform}
use event_driven_ns.World.{
  World, M, Bytes, json, other, Message, ◌>>=◌, ◌>>◌, continue, pure, attempt, error_of, tick,
}
use event_driven_ns.Queue.Publisher.{write_message}

unfoldable pub priority_topics : List String
priority_topics = "notifications.high" ∷ "notifications.normal" ∷ "notifications.low" ∷ []

-- `port.MessageHandler`.
abbrev pub Handler : Type 0
Handler = String → M Unit

-- The oldest message of a topic.
unfoldable pub first_of_topic : String → List Message → Option Message
first_of_topic topic [] = none
first_of_topic topic (m ∷ ms) = if str_eq m.topic topic then some m else first_of_topic topic ms

-- `CommitMessages` of the oldest message of a topic.
unfoldable pub commit : String → List Message → List Message
commit topic [] = []
commit topic (m ∷ ms) = let rest = commit topic ms in if str_eq m.topic topic then ms else m ∷ rest

module _ ⦃p : Platform⦄ where
  -- After a delay, the same topic, key and value are published once more; an error is only logged.
  unfoldable pub retry : Message → M Unit
  retry original = do
    attempt (
        write_message
          (record { topic = original.topic; key = original.key; value = original.value }))
    pure tt

  unfoldable pub retry_if_failed : Message → Option Error → M Unit
  retry_if_failed m none = pure tt
  retry_if_failed m (some e) = retry m

  -- A value that does not decode is skipped. The limiter of the channel only delays the handler.
  unfoldable pub handle_value : Handler → Message → Bytes → M Unit
  handle_value handler m (other bytes) = pure tt
  handle_value handler m (json payload) = do
    failure ← attempt (handler payload.notification_id)
    retry_if_failed m failure

  unfoldable pub handle_message : Handler → Message → M Unit
  handle_message handler m = handle_value handler m m.value

  unfoldable pub process_first : Handler → String → Option Message → World → World
  process_first handler topic none w = w
  process_first handler topic (some m) w =
      let w' = (handle_message handler m w).1 in record w' { messages = commit topic w'.messages }

  -- One round of the loop. `FetchMessage` may fail, and waits when the topic has no message.
  unfoldable pub consume : Handler → String → World → World
  consume handler topic w = elim (p.fault w.step) [
    | some reason ↦ tick w
    | none ↦ process_first handler topic (first_of_topic topic w.messages) (tick w)
  ]

  -- Several rounds.
  unfoldable pub consume_rounds : ℕ → Handler → String → World → World
  consume_rounds ℕ.zero handler topic w = w
  consume_rounds (ℕ.suc n) handler topic w =
      consume_rounds n handler topic (consume handler topic w)
