-- ===== src/Program/Final/Delivery.antt =====
-- `ProcessDelivery` and the consumer on a notification whose status is final, whatever fails.
use mathlib.Core.Path.{subst}
use event_driven_ns.Prelude.{
  true, ◌&&◌, none, some, ◌≡◌, ◌≢◌, refl, sym, Option, String, inl, inr, arith, Bool-cases,
  option_cases, if◌then◌else◌,
}
use event_driven_ns.Domain.Error.{Error, Result, ok, err}
use event_driven_ns.Domain.Status.{Status}
use event_driven_ns.Domain.Notification.{
  Uuid, Notification, mark_processing, mark_delivered, mark_failed, increment_retry,
  has_retries_left,
}
use event_driven_ns.Platform.{Platform, WebhookResponse}
use event_driven_ns.World.{
  time_now, ◌>>=◌, World, Message, Bytes, json, other, tick, continue, pure,
}
use event_driven_ns.World.Triple.{
  OnOk-Any, Any, Triple, bind, attempt-Triple, pure-Triple, raise-Triple,
}
use event_driven_ns.Postgres.Notifications
use event_driven_ns.Provider.{send, execute}
use event_driven_ns.Queue.Publisher.{write_message, enqueue}
use event_driven_ns.Queue.Consumer.{
  consume, process_first, first_of_topic, handle_message, handle_value, retry_if_failed, retry,
}
use event_driven_ns.App.DeliveryService.{
  is_transient, is_settled, finish, handle_success, handle_failure, handle_answer, deliver,
  process_delivery, count_final, retry_later, give_up, retry_or_give_up, broadcast_status, parsed,
}
use event_driven_ns.Postgres.Notifications.{increment_batch_counter}
use event_driven_ns.Program.Final.Store.{
  IsFinalRow, HasFinal, elsewhere, get_by_id-Final, update_status-Final,
}

module _ ⦃p : Platform⦄ (id : Uuid) (s : Status) where
  pub now-Final : Triple (HasFinal id s) time_now Any
  unfolding time_now
  now-Final = elsewhere id s time_now (λ w. refl)

  write_message-Final : (m : Message) → Triple (HasFinal id s) (write_message m) Any
  unfolding write_message
  write_message-Final m = elsewhere id s (write_message m) (λ w. ground arith)

  pub enqueue-Final : (n : Notification) → Triple (HasFinal id s) (enqueue n) Any
  unfolding enqueue
  enqueue-Final n = elsewhere id s (enqueue n) (λ w. ground arith)

  send-Final : (n : Notification) → Triple (HasFinal id s) (send n) Any
  unfolding send execute
  send-Final n = elsewhere id s (send n) (λ w. ground arith)

  broadcast_status-Final : (n : Notification) → Triple (HasFinal id s) (broadcast_status n) Any
  unfolding broadcast_status
  broadcast_status-Final n = elsewhere id s (broadcast_status n) (λ w. refl)

  pub count_final-Final :
      (o : Option Uuid) (t : Status) → Triple (HasFinal id s) (count_final o t) Any
  unfolding count_final increment_batch_counter
  count_final-Final o t = elsewhere id s (count_final o t) (λ w. ground arith)

  -- What is done to another notification.
  finish-Final : (n : Notification) → n.id ≢ id → Triple (HasFinal id s) (finish n) Any
  unfolding finish
  finish-Final n apart =
      bind (attempt-Triple (update_status-Final id s n apart))
        (λ _ _. bind (count_final-Final n.batch_id n.status) (λ _ _. broadcast_status-Final n))

  retry_or_give_up-Final :
      (n : Notification) (e : Error) → n.id ≢ id → Triple (HasFinal id s) (retry_or_give_up n e) Any
  unfolding retry_or_give_up retry_later give_up mark_failed
  retry_or_give_up-Final n e apart = elim (Bool-cases (is_transient e && has_retries_left n)) [
    | inl again ↦
        rw again (bind (attempt-Triple (update_status-Final id s n apart)) (λ _ _. raise-Triple e))
    | inr last ↦ rw last (bind now-Final (λ now _. finish-Final _ apart))
  ]

  handle_answer-Final :
      (n : Notification) (r : Result WebhookResponse)
      → n.id ≢ id
      → Triple (HasFinal id s) (handle_answer n r) Any
  unfolding handle_answer handle_success handle_failure increment_retry mark_delivered
  handle_answer-Final n (ok response) apart = bind now-Final (λ now _. finish-Final _ apart)
  handle_answer-Final n (err e) apart =
      bind now-Final (λ now _. retry_or_give_up-Final (increment_retry now n) e apart)

  deliver-Final : (n : Notification) → n.id ≢ id → Triple (HasFinal id s) (deliver n) Any
  unfolding deliver mark_processing
  deliver-Final n apart = bind now-Final (λ now _.
      let n' = mark_processing now n in
      bind (update_status-Final id s n' apart) (λ _ _. record {
        keeps = λ w i.
            let (j, k) = (send-Final n').keeps w i in
            (handle_answer-Final n' (send n' w).0 apart).keeps (send n' w).1 j;
      }))

  module _ (final : is_settled s ≡ true) where
    -- A notification that is read and is not settled is another one.
    unless_settled :
        (n : Notification)
        → IsFinalRow id s n
        → Triple (HasFinal id s) (if is_settled n.status then pure tt else deliver n) Any
    unless_settled n c = elim (Bool-cases (is_settled n.status)) [
      | inl settled ↦ rw settled (pure-Triple tt tt)
      | inr unsettled ↦
          let apart : n.id ≢ id = λ own.
            let settled : is_settled n.status ≡ true =
              subst (λ t. is_settled t ≡ true) (sym (c own)) final in
            absurd (cc) in
          rw unsettled (deliver-Final n apart)
    ]

    parsed-Final :
        (r : Result Uuid) (w : World)
        → HasFinal id s w
        → HasFinal id s
            (continue r
              (λ i. do
                n ← Notifications.get_by_id i
                if is_settled n.status then pure tt else deliver n)
              w).1
    parsed-Final (err e) w i = i
    parsed-Final (ok j) w i = ((bind (get_by_id-Final id s j) unless_settled).keeps w i).0

    process_delivery-Final : (text : String) → Triple (HasFinal id s) (process_delivery text) Any
    unfolding process_delivery
    process_delivery-Final text = record {
      keeps = λ w i. (parsed-Final (parsed (p.uuid_parse text)) w i, OnOk-Any _);
    }

    retry_if_failed-Final :
        (m : Message) (o : Option Error) → Triple (HasFinal id s) (retry_if_failed m o) Any
    unfolding retry_if_failed retry
    retry_if_failed-Final m none = pure-Triple tt tt
    retry_if_failed-Final m (some e) =
        bind (attempt-Triple (write_message-Final _)) (λ _ _. pure-Triple tt tt)

    handle_value-Final :
        (m : Message) (b : Bytes) → Triple (HasFinal id s) (handle_value process_delivery m b) Any
    unfolding handle_value
    handle_value-Final m (other bytes) = pure-Triple tt tt
    handle_value-Final m (json payload) =
        bind (attempt-Triple (process_delivery-Final payload.notification_id))
          (λ failure _. retry_if_failed-Final m failure)

    process_first-Final :
        (topic : String) (o : Option Message) (w : World)
        → HasFinal id s w
        → HasFinal id s (process_first process_delivery topic o w)
    unfolding process_first handle_message
    process_first-Final topic none w i = i
    process_first-Final topic (some m) w i = ((handle_value-Final m m.value).keeps w i).0

    pub consume-Final :
        (topic : String) (w : World)
        → HasFinal id s w
        → HasFinal id s (consume process_delivery topic w)
    unfolding consume
    consume-Final topic w i =
        let first =
          process_first process_delivery topic (first_of_topic topic w.messages) (tick w) in
        elim (option_cases (p.fault w.step)) [
          | inl h ↦
              let e : consume process_delivery topic w ≡ first = ground arith in
              subst (HasFinal id s) (sym e) (process_first-Final topic _ (tick w) i)
          | inr (reason, h) ↦
              let e : consume process_delivery topic w ≡ tick w = ground arith in
              subst (HasFinal id s) (sym e) i
        ]
