-- ===== src/Queue/Consumer/Requeue.antt =====
-- What a round of the consumer does to the backlog of its topic.
use event_driven_ns.Prelude.{
  true, List, [], ◌∷◌, ◌++◌, some, String, str_eq, ◌≡◌, refl, ap, ◌∙◌, arith,
}
use mathlib.Core.List.{append-nil}
use event_driven_ns.Domain.Error.{Result, ok, err}
use event_driven_ns.Platform.{Platform}
use event_driven_ns.World.{World, json, NotificationPayload, Message, tick, error_of}
use event_driven_ns.Postgres.Table.{select_where}
use event_driven_ns.Postgres.Table.Lookup.{select_where-append}
use event_driven_ns.Postgres.Healthy.{IsHealthy}
use event_driven_ns.Queue.Publisher.{write_message}
use event_driven_ns.Queue.Consumer.{
  Handler, first_of_topic, commit, retry, retry_if_failed, handle_message, handle_value,
  process_first, consume,
}

-- The messages of a topic that wait.
unfoldable pub backlog : String → World → List Message
unfolding select_where
backlog topic w = select_where (λ m. str_eq m.topic topic) w.messages

-- The message that goes back into the queue.
abbrev pub returned : Result (Unit {0}) → Message → List Message
returned (ok u) m = []
returned (err e) m = m ∷ []

pub first_of_topic-backlog :
    (topic : String) (ms : List Message) (m : Message) (rest : List Message)
    → select_where (λ x. str_eq x.topic topic) ms ≡ m ∷ rest
    → first_of_topic topic ms ≡ some m
unfolding first_of_topic select_where
first_of_topic-backlog topic [] m rest h = cc
first_of_topic-backlog topic (x ∷ ms) m rest h =
    ground (arith, first_of_topic-backlog topic ms m rest)

commit-backlog :
    (topic : String) (ms more : List Message) (m : Message) (rest : List Message)
    → select_where (λ x. str_eq x.topic topic) ms ≡ m ∷ rest
    → select_where (λ x. str_eq x.topic topic) (commit topic (ms ++ more))
      ≡ rest ++ select_where (λ x. str_eq x.topic topic) more
unfolding commit select_where
commit-backlog topic [] more m rest h = cc
commit-backlog topic (x ∷ ms) more m rest h = ground (
  arith,
  select_where-append (λ (y : Message). str_eq y.topic topic) ms more,
  commit-backlog topic ms more m rest,
)

topic-backlog :
    (topic : String) (ms : List Message) (m : Message) (rest : List Message)
    → select_where (λ x. str_eq x.topic topic) ms ≡ m ∷ rest
    → str_eq m.topic topic ≡ true
unfolding select_where
topic-backlog topic [] m rest h = cc
topic-backlog topic (x ∷ ms) m rest h = ground (arith, topic-backlog topic ms m rest)

returned-backlog :
    (topic : String) (m : Message) (r : Result (Unit {0}))
    → str_eq m.topic topic ≡ true
    → select_where (λ x. str_eq x.topic topic) (returned r m) ≡ returned r m
unfolding select_where
returned-backlog topic m (ok u) h = refl
returned-backlog topic m (err e) h = rw h refl

-- The handler publishes nothing.
abbrev pub IsSilent : Handler → Type 0
IsSilent handler = (text : String) (w : World) → (handler text w).1.messages ≡ w.messages

module _ ⦃p : Platform⦄ (healthy : IsHealthy p) (handler : Handler)
    (silent : IsSilent handler) where
  messages-retry_if_failed :
      (m : Message) (r : Result (Unit {0})) (w : World)
      → (retry_if_failed m (error_of r) w).1.messages ≡ w.messages ++ returned r m
  unfolding retry_if_failed retry write_message
  messages-retry_if_failed m (ok u) w = rw append-nil
  messages-retry_if_failed m (err e) w = ground (arith, healthy w.step)

  messages-handle_message :
      (m : Message) (payload : NotificationPayload) (w : World)
      → m.value ≡ json payload
      → (handle_message handler m w).1.messages
        ≡ w.messages ++ returned (handler payload.notification_id w).0 m
  unfolding handle_message handle_value
  messages-handle_message m payload w e =
      let (r, v) = handler payload.notification_id w in
      ap (λ bytes. (handle_value handler m bytes w).1.messages) e
      ∙ messages-retry_if_failed m r v
      ∙ ap (λ ms. ms ++ returned r m) (silent payload.notification_id w)

  -- When Kafka does not fail and the handler publishes nothing itself, a round takes the oldest
  -- message of the topic, if it is JSON. It comes back as the newest exactly when the handler failed:
  -- no message is lost, and none is doubled.
  pub backlog-consume :
      (topic : String) (w : World) (m : Message) (rest : List Message)
      (payload : NotificationPayload)
      → backlog topic w ≡ m ∷ rest
      → m.value ≡ json payload
      → backlog topic (consume handler topic w)
        ≡ rest ++ returned (handler payload.notification_id (tick w)).0 m
  unfolding backlog consume process_first
  backlog-consume topic w m rest payload waits e =
      let r = (handler payload.notification_id (tick w)).0 in
      rw
        (
          healthy w.step,
          consume,
          first_of_topic-backlog topic w.messages m rest waits,
          process_first,
        )
        (ap (λ ms. select_where (λ x. str_eq x.topic topic) (commit topic ms))
            (messages-handle_message m payload (tick w) e)
          ∙ commit-backlog topic w.messages (returned r m) m rest waits
          ∙ ap (λ ms. rest ++ ms)
              (returned-backlog topic m r (topic-backlog topic w.messages m rest waits)))
