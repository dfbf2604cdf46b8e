-- ===== src/App/DeliveryService/Outcome.antt =====
-- What `ProcessDelivery` makes of a notification when the store does not fail: a description that
-- knows nothing of the steps, and the theorem that the steps implement it.
use mathlib.Core.Option
use event_driven_ns.Prelude.{
  ℕ, ◌+◌, ◌&&◌, List, Option, none, some, String, ◌≡◌, ◌≢◌, refl, ap, ◌∙◌, arith, ltb, ◌==◌,
  if◌then◌else◌, Bool-cases, inl, inr,
}
use event_driven_ns.Domain.Error.{message, Result, ok, err}
use event_driven_ns.Domain.Status.{Status, processing, delivered, failed}
use event_driven_ns.Domain.Notification.{
  Uuid, Notification, mark_processing, mark_delivered, mark_failed, increment_retry,
  has_retries_left,
}
use event_driven_ns.Platform.{Platform, WebhookResponse}
use event_driven_ns.World.{World, tick, time_now}
use event_driven_ns.Postgres.Rows.{set_status}
use event_driven_ns.Postgres.Table.{find_row, update_where}
use event_driven_ns.Postgres.Table.Lookup.{find_row-update_where}
use event_driven_ns.Postgres.Notifications.{update_status, increment_batch_counter}
use event_driven_ns.Postgres.Healthy.{IsHealthy, stored, update_status_lem}
use event_driven_ns.Provider.{send, execute, verdict, breaker, do_send}
use event_driven_ns.App.DeliveryService.{
  is_transient, finish, handle_success, handle_failure, handle_answer, deliver, count_final,
  retry_later, give_up, retry_or_give_up, broadcast_status,
}

-- What a client can read of a delivery.
pub record Summary : Type 0 where
  pub status : Status
  pub retry_count : ℕ
  pub max_retries : ℕ
  pub error_message : Option String
  pub provider_message_id : Option String

abbrev pub summary : Notification → Summary
summary n = record {
  status = n.status;
  retry_count = n.retry_count;
  max_retries = n.max_retries;
  error_message = n.error_message;
  provider_message_id = n.provider_message_id;
}

-- The rule: an accepted message is delivered; a transient failure is left in processing while fewer
-- than `max_retries` attempts were made; any other failure is final.
unfoldable pub expected : Notification → Result WebhookResponse → Summary
expected n (ok response) = record (summary n) {
  status = delivered;
  provider_message_id = some response.message_id;
}
expected n (err e) =
    if is_transient e && ltb (n.retry_count + 1) n.max_retries
    then record (summary n) { status = processing; retry_count = n.retry_count + 1 }
    else record (summary n) {
      status = failed;
      retry_count = n.retry_count + 1;
      error_message = some (message e);
    }

module _ ⦃p : Platform⦄ where
  -- Errors of the store are not returned.
  pub finish-ok : (n : Notification) (w : World) → (finish n w).0 ≡ ok tt
  unfolding finish broadcast_status count_final
  finish-ok n w = ground arith

-- What the branches after `Send` store.
pub resolved : ⦃p : Platform⦄ → Notification → Result WebhookResponse → World → Notification
resolved ⦃p⦄ n (ok response) w = mark_delivered (p.now w.step) response.message_id n
resolved ⦃p⦄ n (err e) w =
    let n' = increment_retry (p.now w.step) n in
    if is_transient e && has_retries_left n'
    then n'
    else mark_failed (p.now (tick w).step) (message e) n'

module _ ⦃p : Platform⦄ (healthy : IsHealthy p) where
  count_final-keeps :
      (o : Option Uuid) (s : Status) (w : World)
      → (count_final o s w).1.notifications ≡ w.notifications
  unfolding count_final increment_batch_counter
  count_final-keeps o s w = ground (arith, healthy w.step)

  notifications-finish :
      (n : Notification) (w : World)
      → (finish n w).1.notifications
        ≡ update_where (λ r. r.id == n.id) (set_status n) w.notifications
  unfolding finish broadcast_status
  notifications-finish n w = ground (
    arith,
    update_status_lem healthy w n,
    count_final-keeps n.batch_id n.status (update_status n w).1,
  )

  notifications-handle_answer :
      (n : Notification) (r : Result WebhookResponse) (w : World)
      → (handle_answer n r w).1.notifications
        ≡ update_where (λ m. m.id == n.id) (set_status (resolved n r w)) w.notifications
  unfolding resolved handle_answer handle_success handle_failure retry_or_give_up retry_later
      give_up time_now increment_retry mark_failed mark_delivered
  notifications-handle_answer n (ok response) w =
      notifications-finish (mark_delivered (p.now w.step) response.message_id n) (tick w)
  notifications-handle_answer n (err e) w =
      let n' = increment_retry (p.now w.step) n in
      elim (Bool-cases (is_transient e && has_retries_left n')) [
        | inl again ↦ rw again (ground (arith, update_status_lem healthy (tick w) n'))
        | inr last ↦ rw last (
            notifications-finish (mark_failed (p.now (tick w).step) (message e) n') (tick (tick w)))
      ]

notifications-send :
    ⦃p : Platform⦄ (n : Notification) (w : World) → (send n w).1.notifications ≡ w.notifications
unfolding send execute
notifications-send n w = ground arith

-- The answer to an attempt depends on the step, on the calls so far and on what is sent.
pub send-mark_processing :
    ⦃p : Platform⦄ (now : ℕ) (n : Notification) (w v : World)
    → v.step ≡ w.step
    → v.calls ≡ w.calls
    → (send (mark_processing now n) v).0 ≡ (send n w).0
unfolding send execute verdict breaker do_send mark_processing
send-mark_processing now n w v e c = ground arith

module _ ⦃p : Platform⦄ (healthy : IsHealthy p) where
  pub notifications-deliver :
      (n : Notification) (w : World)
      → let n' = mark_processing (p.now w.step) n in
        let u = (update_status n' (tick w)).1 in
        let (r, v) = send n' u in
        (deliver n w).1.notifications
        ≡ update_where
            (λ m. m.id == n.id)
            (set_status (resolved n' r v))
            (update_where (λ m. m.id == n.id) (set_status n') w.notifications)
  unfolding deliver time_now mark_processing
  notifications-deliver n w =
      let n' = mark_processing (p.now w.step) n in
      rw (update_status_lem healthy (tick w) n') (
        notifications-handle_answer healthy n' _ _
        ∙ ap (update_where (λ m. m.id == n.id) _) (notifications-send n' _))

pub summary-resolved :
    ⦃p : Platform⦄ (now : ℕ) (n m : Notification) (r : Result WebhookResponse) (v : World)
    → m.error_message ≡ n.error_message
    → m.provider_message_id ≡ n.provider_message_id
    → m.max_retries ≡ n.max_retries
    → summary (set_status (resolved (mark_processing now n) r v) m) ≡ expected n r
unfolding resolved expected set_status mark_processing mark_delivered mark_failed increment_retry
    has_retries_left
summary-resolved now n m (ok response) v e k l = ground arith
summary-resolved now n m (err f) v e k l = ground arith

pub find_twice :
    (id : ℕ) (f g : Notification → Notification) (rows : List Notification) {n : Notification}
    → ((r : Notification) → (f r).id ≡ r.id)
    → ((r : Notification) → (g r).id ≡ r.id)
    → find_row (λ r. r.id == id) rows ≡ some n
    → find_row
        (λ r. r.id == id)
        (update_where (λ r. r.id == id) g (update_where (λ r. r.id == id) f rows))
      ≡ some (g (f n))
find_twice id f g rows kf kg h = ground (
  arith,
  find_row-update_where (λ (r : Notification). r.id) id id f rows kf,
  find_row-update_where (λ (r : Notification). r.id) id id g
      (update_where (λ (r : Notification). r.id == id) f rows) kg,
)

pub find_other :
    (id j : ℕ) (f g : Notification → Notification) (rows : List Notification)
    → ((r : Notification) → (f r).id ≡ r.id)
    → ((r : Notification) → (g r).id ≡ r.id)
    → j ≢ id
    → find_row
        (λ r. r.id == j)
        (update_where (λ r. r.id == id) g (update_where (λ r. r.id == id) f rows))
      ≡ find_row (λ r. r.id == j) rows
find_other id j f g rows kf kg h = ground (
  arith,
  find_row-update_where (λ (r : Notification). r.id) j id f rows kf,
  find_row-update_where (λ (r : Notification). r.id) j id g
      (update_where (λ (r : Notification). r.id == id) f rows) kg,
)

-- The row behind a summary.
pub summary_row :
    (o : Option Notification) (s : Summary)
    → Option.map summary o ≡ some s
    → (n : Notification) × (o ≡ some n) × (summary n ≡ s)
summary_row none s h = absurd (cc)
summary_row (some n) s h = (n, refl, cc)

pub status-summary :
    (o : Option Notification) (s : Summary)
    → Option.map summary o ≡ some s
    → Option.map (λ m. m.status) o ≡ some s.status
status-summary none s h = cc
status-summary (some n) s h = ground arith

module _ ⦃p : Platform⦄ (healthy : IsHealthy p) where
  pub answer_of :
      (n : Notification) (w : World)
      → let n' = mark_processing (p.now w.step) n in
        (send n' (update_status n' (tick w)).1).0 ≡ (send n (tick (tick w))).0
  answer_of n w =
      rw (update_status_lem healthy (tick w) (mark_processing (p.now w.step) n))
        (send-mark_processing (p.now w.step) n (tick (tick w)) _ refl refl)

  -- The stored notification after one attempt.
  pub stored-deliver :
      (n : Notification) (w : World)
      → stored w n.id ≡ some n
      → Option.map summary (stored (deliver n w).1 n.id)
        ≡ some (expected n (send n (tick (tick w))).0)
  unfolding stored set_status mark_processing
  stored-deliver n w h =
      let n' = mark_processing (p.now w.step) n in
      let u = (update_status n' (tick w)).1 in
      let (r, v) = send n' u in
      rw
        (
          notifications-deliver healthy n w,
          find_twice n.id (set_status n') (set_status (resolved n' r v)) w.notifications (λ m. refl)
              (λ m. refl) h,
        )
        (ap some (
          summary-resolved (p.now w.step) n (set_status n' n) r v refl refl refl
          ∙ ap (expected n) (answer_of n w)))
