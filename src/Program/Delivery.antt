-- ===== src/Program/Delivery.antt =====
-- `ProcessDelivery`, the scheduler and the consumer keep the tables sound, whatever fails.
use mathlib.Core.Path.{subst}
use event_driven_ns.Prelude.{
  ◌&&◌, none, some, ◌≡◌, refl, sym, All, Option, String, inl, inr, arith, Bool-cases, option_cases,
  if◌then◌else◌,
}
use event_driven_ns.Domain.Error.{Error, Result, ok, err}
use event_driven_ns.Domain.Status.{Status, processing}
use event_driven_ns.Domain.Notification.{
  Uuid, Notification, mark_processing, mark_delivered, mark_failed, increment_retry,
  has_retries_left,
}
use event_driven_ns.Platform.{Platform, WebhookResponse}
use event_driven_ns.World.{◌>>=◌, World, M, Message, Bytes, json, other, tick, continue, pure}
use event_driven_ns.World.Triple.{
  OnOk-Any, Any, Triple, bind, attempt-Triple, pure-Triple, raise-Triple,
}
use event_driven_ns.Postgres.Notifications
use event_driven_ns.Provider.{send, execute}
use event_driven_ns.Queue.Publisher.{write_message, enqueue}
use event_driven_ns.Queue.Consumer.{
  consume, process_first, first_of_topic, handle_message, handle_value, retry_if_failed, retry,
}
use event_driven_ns.App.DeliveryService.{
  is_transient, is_settled, finish, handle_success, handle_failure, handle_answer, deliver,
  process_delivery, count_final, retry_later, give_up, retry_or_give_up, broadcast_status, parsed,
}
use event_driven_ns.Program.Sound.{IsConsistent, IsDated, IsBalanced, IsSound, IsWritable}
use event_driven_ns.Program.Store.{
  either, get_by_id-Triple, update_status-Triple, increment_batch_counter-Triple,
}
use event_driven_ns.Program.Queries.{time_now-Triple}

-- An action that touches no table.
pub outside-Triple :
    {A : Type 0} (m : M A)
    → ((w : World) → (m w).1.notifications ≡ w.notifications)
    → ((w : World) → (m w).1.batches ≡ w.batches)
    → Triple IsSound m Any
outside-Triple m ns bs = record {
  keeps = λ w (rs, cs). (
    (subst (All IsConsistent) (sym (ns w)) rs, subst (All IsBalanced) (sym (bs w)) cs),
    OnOk-Any (m w).0,
  );
}

processing-IsWritable : (n : Notification) → n.status ≡ processing → IsWritable n
processing-IsWritable n e = subst (λ s. IsDated s (record n { scheduled_at = none })) (sym e) tt

module _ ⦃p : Platform⦄ where
  pub write_message-Triple : (m : Message) → Triple IsSound (write_message m) Any
  unfolding write_message
  write_message-Triple m = outside-Triple (write_message m) (λ w. ground arith) (λ w. ground arith)

  pub enqueue-Triple : (n : Notification) → Triple IsSound (enqueue n) Any
  unfolding enqueue
  enqueue-Triple n = outside-Triple (enqueue n) (λ w. ground arith) (λ w. ground arith)

  send-Triple : (n : Notification) → Triple IsSound (send n) Any
  unfolding send execute
  send-Triple n = outside-Triple (send n) (λ w. ground arith) (λ w. ground arith)

  broadcast_status-Triple : (n : Notification) → Triple IsSound (broadcast_status n) Any
  unfolding broadcast_status
  broadcast_status-Triple n = outside-Triple (broadcast_status n) (λ w. refl) (λ w. refl)

  count_final-Triple : (o : Option Uuid) (s : Status) → Triple IsSound (count_final o s) Any
  unfolding count_final
  count_final-Triple none s = pure-Triple tt tt
  count_final-Triple (some id) s =
      bind (attempt-Triple (increment_batch_counter-Triple id s)) (λ _ _. pure-Triple tt tt)

  finish-Triple : (n : Notification) → IsWritable n → Triple IsSound (finish n) Any
  unfolding finish
  finish-Triple n h =
      bind (attempt-Triple (update_status-Triple n h))
        (λ _ _. bind (count_final-Triple n.batch_id n.status) (λ _ _. broadcast_status-Triple n))

  retry_or_give_up-Triple :
      (n : Notification) (e : Error)
      → n.status ≡ processing
      → Triple IsSound (retry_or_give_up n e) Any
  unfolding retry_or_give_up retry_later give_up mark_failed
  retry_or_give_up-Triple n e h = elim (Bool-cases (is_transient e && has_retries_left n)) [
    | inl again ↦ rw again (
        bind (attempt-Triple (update_status-Triple n (processing-IsWritable n h)))
          (λ _ _. raise-Triple e))
    | inr last ↦ rw last (bind time_now-Triple (λ now _. finish-Triple _ (refl, refl)))
  ]

  handle_answer-Triple :
      (n : Notification) (r : Result WebhookResponse)
      → n.status ≡ processing
      → Triple IsSound (handle_answer n r) Any
  unfolding handle_answer handle_success handle_failure increment_retry mark_delivered
  handle_answer-Triple n (ok response) h =
      bind time_now-Triple (λ now _. finish-Triple _ (refl, refl))
  handle_answer-Triple n (err e) h =
      bind time_now-Triple (λ now _. retry_or_give_up-Triple (increment_retry now n) e h)

  deliver-Triple : (n : Notification) → Triple IsSound (deliver n) Any
  unfolding deliver mark_processing
  deliver-Triple n = bind time_now-Triple (λ now _.
      let n' = mark_processing now n in
      bind (update_status-Triple n' tt) (λ _ _. record {
        keeps = λ w i.
            let (j, k) = (send-Triple n').keeps w i in
            (handle_answer-Triple n' (send n' w).0 refl).keeps (send n' w).1 j;
      }))

  unless_settled :
      (n : Notification) → Triple IsSound (if is_settled n.status then pure tt else deliver n) Any
  unless_settled n = either (λ m. Triple IsSound m Any) _ _ _ (pure-Triple tt tt) (deliver-Triple n)

  parsed-Triple :
      (r : Result Uuid) (w : World)
      → IsSound w
      → IsSound
          (continue r
            (λ id. do
              n ← Notifications.get_by_id id
              if is_settled n.status then pure tt else deliver n)
            w).1
  parsed-Triple (err e) w i = i
  parsed-Triple (ok id) w i = ((bind (get_by_id-Triple id) (λ n _. unless_settled n)).keeps w i).0

  pub process_delivery-Triple : (text : String) → Triple IsSound (process_delivery text) Any
  unfolding process_delivery
  process_delivery-Triple text = record {
    keeps = λ w i. (parsed-Triple (parsed (p.uuid_parse text)) w i, OnOk-Any _);
  }

  retry_if_failed-Triple :
      (m : Message) (o : Option Error) → Triple IsSound (retry_if_failed m o) Any
  unfolding retry_if_failed retry
  retry_if_failed-Triple m none = pure-Triple tt tt
  retry_if_failed-Triple m (some e) =
      bind (attempt-Triple (write_message-Triple _)) (λ _ _. pure-Triple tt tt)

  handle_value-Triple :
      (m : Message) (b : Bytes) → Triple IsSound (handle_value process_delivery m b) Any
  unfolding handle_value
  handle_value-Triple m (other bytes) = pure-Triple tt tt
  handle_value-Triple m (json payload) =
      bind (attempt-Triple (process_delivery-Triple payload.notification_id))
        (λ failure _. retry_if_failed-Triple m failure)

  process_first-IsSound :
      (topic : String) (o : Option Message) (w : World)
      → IsSound w
      → IsSound (process_first process_delivery topic o w)
  unfolding process_first handle_message
  process_first-IsSound topic none w i = i
  process_first-IsSound topic (some m) w i = ((handle_value-Triple m m.value).keeps w i).0

  pub consume-IsSound :
      (topic : String) (w : World) → IsSound w → IsSound (consume process_delivery topic w)
  unfolding consume
  consume-IsSound topic w i =
      let first = process_first process_delivery topic (first_of_topic topic w.messages) (tick w) in
      elim (option_cases (p.fault w.step)) [
        | inl h ↦
            let e : consume process_delivery topic w ≡ first = ground arith in
            subst IsSound (sym e) (process_first-IsSound topic _ (tick w) i)
        | inr (reason, h) ↦
            let e : consume process_delivery topic w ≡ tick w = ground arith in
            subst IsSound (sym e) i
      ]
