-- ===== src/App/DeliveryService/Silent.antt =====
-- `ProcessDelivery` publishes no message, whatever fails on the way.
use event_driven_ns.Prelude.{
  ◌&&◌, Option, String, ◌≡◌, refl, ◌∙◌, arith, Bool-cases, inl, inr, if◌then◌else◌,
}
use event_driven_ns.Domain.Error.{Error, Result, ok, err}
use event_driven_ns.Domain.Status.{Status}
use event_driven_ns.Domain.Notification.{Uuid, Notification, has_retries_left, mark_processing}
use event_driven_ns.Platform.{Platform, WebhookResponse}
use event_driven_ns.World.{World, M, time_now, continue, tick}
use event_driven_ns.Postgres.Notifications.{get_by_id, update_status, increment_batch_counter}
use event_driven_ns.Provider.{send, execute}
use event_driven_ns.App.DeliveryService.{
  is_transient, is_settled, finish, handle_success, handle_failure, handle_answer, deliver,
  process_delivery, count_final, retry_later, give_up, retry_or_give_up, broadcast_status, parsed,
}

-- What an action leaves in Kafka.
abbrev IsQuiet : {A : Type 0} → M A → Type 0
IsQuiet m = (w : World) → (m w).1.messages ≡ w.messages

module _ ⦃p : Platform⦄ where
  update_status-IsQuiet : (n : Notification) → IsQuiet (update_status n)
  unfolding update_status
  update_status-IsQuiet n w = ground arith

  send-IsQuiet : (n : Notification) → IsQuiet (send n)
  unfolding send execute
  send-IsQuiet n w = ground arith

  get_by_id-IsQuiet : (id : Uuid) → IsQuiet (get_by_id id)
  unfolding get_by_id
  get_by_id-IsQuiet id w = ground arith

  count_final-IsQuiet : (o : Option Uuid) (s : Status) → IsQuiet (count_final o s)
  unfolding count_final increment_batch_counter
  count_final-IsQuiet o s w = ground arith

  finish-IsQuiet : (n : Notification) → IsQuiet (finish n)
  unfolding finish broadcast_status
  finish-IsQuiet n w = ground (
    arith,
    count_final-IsQuiet n.batch_id n.status (update_status n w).1,
    update_status-IsQuiet n w,
  )

  retry_or_give_up-IsQuiet : (n : Notification) (e : Error) → IsQuiet (retry_or_give_up n e)
  unfolding retry_or_give_up retry_later give_up time_now
  retry_or_give_up-IsQuiet n e w = elim (Bool-cases (is_transient e && has_retries_left n)) [
    | inl again ↦ rw again (update_status-IsQuiet n w)
    | inr last ↦ rw last (finish-IsQuiet _ (tick w))
  ]

  handle_answer-IsQuiet :
      (n : Notification) (r : Result WebhookResponse) → IsQuiet (handle_answer n r)
  unfolding handle_answer handle_success handle_failure time_now
  handle_answer-IsQuiet n (ok response) w = finish-IsQuiet _ (tick w)
  handle_answer-IsQuiet n (err e) w = retry_or_give_up-IsQuiet _ e (tick w)

  -- The rest of an attempt, once the notification is stored as processing.
  attempt-IsQuiet :
      (n : Notification) (r : Result (Unit {0})) (w : World)
      → (continue r (λ _. λ v. let (a, u) = send n v in handle_answer n a u) w).1.messages
        ≡ w.messages
  attempt-IsQuiet n (ok u) w =
      let (a, v) = send n w in handle_answer-IsQuiet n a v ∙ send-IsQuiet n w
  attempt-IsQuiet n (err e) w = refl

  deliver-IsQuiet : (n : Notification) → IsQuiet (deliver n)
  unfolding deliver time_now
  deliver-IsQuiet n w =
      let n' = mark_processing (p.now w.step) n in
      let (r, v) = update_status n' (tick w) in
      attempt-IsQuiet n' r v ∙ update_status-IsQuiet n' (tick w)

  unless_settled-IsQuiet :
      (r : Result Notification) (w : World)
      → (continue r
          (λ n. if is_settled n.status then (λ v. (ok tt, v)) else deliver n)
          w).1.messages
        ≡ w.messages
  unless_settled-IsQuiet (err e) w = refl
  unless_settled-IsQuiet (ok n) w = elim (Bool-cases (is_settled n.status)) [
    | inl h ↦ rw h refl
    | inr h ↦ rw h (deliver-IsQuiet n w)
  ]

  parsed-IsQuiet :
      (r : Result Uuid) (w : World)
      → (continue r
          (λ id. λ v.
            let (a, u) = get_by_id id v in
            continue a (λ n. if is_settled n.status then (λ x. (ok tt, x)) else deliver n) u)
          w).1.messages
        ≡ w.messages
  parsed-IsQuiet (err e) w = refl
  parsed-IsQuiet (ok id) w =
      let (a, u) = get_by_id id w in unless_settled-IsQuiet a u ∙ get_by_id-IsQuiet id w

  pub process_delivery-IsQuiet :
      (text : String) (w : World) → (process_delivery text w).1.messages ≡ w.messages
  unfolding process_delivery
  process_delivery-IsQuiet text w = parsed-IsQuiet (parsed (p.uuid_parse text)) w
