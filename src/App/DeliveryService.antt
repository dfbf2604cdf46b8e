-- ===== src/App/DeliveryService.antt =====
-- internal/app/delivery_service.go.
pub mod Isolated
pub mod Outcome
pub mod Process
pub mod Silent
pub mod Overtaken
use event_driven_ns.Prelude.{
  Bool, true, false, ◌&&◌, ◌||◌, [], ◌∷◌, ◌++◌, Option, none, some, String, if◌then◌else◌,
}
use event_driven_ns.Domain.Error.{
  Error, foreign, message, Result, ok, err, errors_is, provider_unavailable, circuit_open,
}
use event_driven_ns.Domain.Status
use event_driven_ns.Domain.Status.{Status, delivered, failed, cancelled}
use event_driven_ns.Domain.Notification.{
  Notification, Uuid, mark_processing, mark_delivered, mark_failed, increment_retry,
  has_retries_left,
}
use event_driven_ns.Platform.{Platform, WebhookResponse}
use event_driven_ns.World.{M, ◌>>=◌, ◌>>◌, continue, pure, raise, attempt, tick, time_now}
use event_driven_ns.Postgres.Notifications
use event_driven_ns.Provider.{send}

unfoldable pub is_transient : Error → Bool
is_transient e = errors_is e provider_unavailable || errors_is e circuit_open

-- `Status == cancelled || Status == delivered`.
unfoldable pub is_settled : Status → Bool
is_settled cancelled = true
is_settled delivered = true
is_settled _ = false

-- The errors of `uuid.Parse` as a result.
abbrev pub parsed : Uuid × Option String → Result Uuid
parsed (id, none) = ok id
parsed (id, some reason) = err (foreign reason)

module _ ⦃p : Platform⦄ where
  -- `Broadcast` of the hub, with the time of the call.
  unfoldable pub broadcast_status : Notification → M Unit
  broadcast_status n w = (
    ok tt,
    record w {
      step = (tick w).step;
      updates =
          w.updates
          ++ record {
            notification_id = p.uuid_string n.id;
            status = Status.to_string n.status;
            timestamp = p.rfc3339 (p.now w.step);
          }
            ∷ [];
    },
  )

  unfoldable pub count_final : Option Uuid → Status → M Unit
  count_final none status = pure tt
  count_final (some id) status = do
    attempt (Notifications.increment_batch_counter id status)
    pure tt

  -- The notification is stored, counted and broadcast in its final state; errors are only logged.
  unfoldable pub finish : Notification → M Unit
  finish n = do
    attempt (Notifications.update_status n)
    count_final n.batch_id n.status
    broadcast_status n

  -- A failure that is tried again: the count is stored, and the error is returned.
  unfoldable pub retry_later : Notification → Error → M Unit
  retry_later n send_error = do attempt (Notifications.update_status n); raise send_error

  -- A failure that is final.
  unfoldable pub give_up : Notification → Error → M Unit
  give_up n send_error = do now ← time_now; finish (mark_failed now (message send_error) n)

  -- The branch `sendErr != nil`, after the retry is counted.
  unfoldable pub retry_or_give_up : Notification → Error → M Unit
  retry_or_give_up n send_error =
      if is_transient send_error && has_retries_left n
      then retry_later n send_error
      else give_up n send_error

  unfoldable pub handle_failure : Notification → Error → M Unit
  handle_failure n send_error = do
    now ← time_now
    retry_or_give_up (increment_retry now n) send_error

  unfoldable pub handle_success : Notification → WebhookResponse → M Unit
  handle_success n response = do now ← time_now; finish (mark_delivered now response.message_id n)

  -- What is done with the answer of the provider.
  unfoldable pub handle_answer : Notification → Result WebhookResponse → M Unit
  handle_answer n (ok response) = handle_success n response
  handle_answer n (err e) = handle_failure n e

  -- One attempt at a notification that is not settled.
  unfoldable pub deliver : Notification → M Unit
  deliver n = do
    now ← time_now
    let n' : Notification = mark_processing now n
    Notifications.update_status n'
    λ w. let (r, w') = send n' w in handle_answer n' r w'

  unfoldable pub process_delivery : String → M Unit
  process_delivery notification_id w =
      continue (parsed (p.uuid_parse notification_id))
        (λ id. do
          n ← Notifications.get_by_id id
          if is_settled n.status then pure tt else deliver n)
        w
