-- ===== src/App/DeliveryService/Process.antt =====
-- `ProcessDelivery` as a whole: what it returns, what it stores, and what it leaves alone.
use mathlib.Core.Option
use mathlib.Core.Path.{subst}
use event_driven_ns.Prelude.{
  ℕ, ◌+◌, true, false, ◌&&◌, none, some, String, ◌≡◌, ◌≢◌, refl, ap, sym, ◌∙◌, arith, ltb,
  if◌then◌else◌, Bool-cases, inl, inr,
}
use event_driven_ns.Domain.Error.{foreign, Result, ok, err}
use event_driven_ns.Domain.Status.{failed}
use event_driven_ns.Domain.Notification.{
  Uuid, Notification, mark_processing, increment_retry, has_retries_left,
}
use event_driven_ns.CircuitBreaker.{Settings}
use event_driven_ns.Platform.{Platform, WebhookResponse}
use event_driven_ns.World.{World, M, tick, time_now}
use event_driven_ns.Postgres.Rows.{set_status}
use event_driven_ns.Postgres.Table.Lookup.{key-find_row}
use event_driven_ns.Postgres.Notifications.{get_by_id, update_status}
use event_driven_ns.Postgres.Healthy.{IsHealthy, stored, update_status_lem, get_by_id-stored}
use event_driven_ns.Provider.{send, do_send, execute, verdict, breaker}
use event_driven_ns.App.DeliveryService.{
  is_transient, is_settled, handle_success, handle_failure, handle_answer, deliver,
  process_delivery, retry_later, give_up, retry_or_give_up,
}
use event_driven_ns.App.DeliveryService.Outcome.{
  summary, expected, resolved, stored-deliver, send-mark_processing, finish-ok, find_other,
  status-summary, notifications-deliver,
}

-- The error that asks the consumer to try again.
unfoldable pub reply : Notification → Result WebhookResponse → Result (Unit {0})
reply n (ok response) = ok tt
reply n (err e) = if is_transient e && ltb (n.retry_count + 1) n.max_retries then err e else ok tt

module _ ⦃p : Platform⦄ where
  reply-handle_answer :
      (now : ℕ) (n : Notification) (r : Result WebhookResponse) (w : World)
      → (handle_answer (mark_processing now n) r w).0 ≡ reply n r
  unfolding reply handle_answer handle_success handle_failure retry_or_give_up retry_later give_up
      time_now increment_retry has_retries_left mark_processing
  reply-handle_answer now n (ok response) w = finish-ok _ _
  reply-handle_answer now n (err e) w =
      let again = is_transient e && ltb (n.retry_count + 1) n.max_retries in
      elim (Bool-cases again) [ inl h ↦ rw h refl | inr h ↦ rw h (finish-ok _ _) ]

module _ ⦃p : Platform⦄ (healthy : IsHealthy p) where
  reply-deliver :
      (n : Notification) (w : World) → (deliver n w).0 ≡ reply n (send n (tick (tick w))).0
  unfolding deliver time_now
  reply-deliver n w =
      let n' = mark_processing (p.now w.step) n in
      rw (update_status_lem healthy (tick w) n') (
        reply-handle_answer (p.now w.step) n _ _
        ∙ ap (reply n) (send-mark_processing (p.now w.step) n (tick (tick w)) _ refl refl))

-- A call that the breaker refuses is not made.
execute-refused :
    ⦃p : Platform⦄ {A : Type 0} (s : Settings) (m : M A) (w : World) (reason : String)
    → verdict s w ≡ some reason
    → execute s m w ≡ (err (foreign reason), tick w)
unfolding execute
execute-refused s m w reason h = rw (h, execute)

send-refused :
    ⦃p : Platform⦄ (n : Notification) (w : World) (reason : String)
    → verdict (breaker n) w ≡ some reason
    → (send n w).0 ≡ err (foreign reason)
unfolding send
send-refused n w reason h = ap (λ x. x.0) (execute-refused (breaker n) (do_send n) w reason h)

-- The answer that the provider gives to this attempt.
abbrev pub answer : ⦃p : Platform⦄ → Notification → World → Result WebhookResponse
answer n w = (send n (tick (tick (tick w)))).0

module _ ⦃p : Platform⦄ (w : World) (text : String) (id : Uuid) (n : Notification)
    (parses : p.uuid_parse text ≡ (id, none)) (found : stored w id ≡ some n) where
  -- A notification that is cancelled or delivered is left alone, and so is everything else: nothing
  -- is sent, stored, counted or broadcast, whether or not the store fails.
  process_delivery_settled : is_settled n.status ≡ true → (process_delivery text w).1 ≡ tick w
  unfolding process_delivery get_by_id stored
  process_delivery_settled h = rw parses (ground arith)

  module _ (healthy : IsHealthy p) (unsettled : is_settled n.status ≡ false) where
    process-deliver : process_delivery text w ≡ deliver n (tick w)
    unfolding process_delivery
    process-deliver = rw (parses, get_by_id-stored healthy w id found, unsettled)

    process-other : (j : Uuid) → j ≢ id → stored (process_delivery text w).1 j ≡ stored w j
    unfolding stored set_status
    process-other j other =
        let own : n.id ≡ id = key-find_row (λ r. r.id) id n w.notifications found in
        let n' = mark_processing (p.now (tick w).step) n in
        let u = (update_status n' (tick (tick w))).1 in
        let (r, v) = send n' u in
        rw (process-deliver, notifications-deliver healthy n (tick w))
          (find_other n.id j (set_status n') (set_status (resolved n' r v)) w.notifications
            (λ m. refl) (λ m. refl) (λ e. other (e ∙ own)))

    process-row :
        (Option.map summary (stored (process_delivery text w).1 id)
          ≡ some (expected n (answer n w)))
        × ((process_delivery text w).0 ≡ reply n (answer n w))
    unfolding stored
    process-row =
        let own : n.id ≡ id = key-find_row (λ r. r.id) id n w.notifications found in
        rw (process-deliver, ← own)
          (
            stored-deliver healthy n (tick w) (subst (λ i. stored w i ≡ some n) (sym own) found),
            reply-deliver healthy n (tick w),
          )

    -- One attempt at a notification that is not settled, when the store does not fail. With the
    -- provider's answer it becomes delivered; or stays in processing with one more attempt on its
    -- count, if the failure is transient and attempts are left; or becomes failed. The error is
    -- returned in the second case only. Every other notification stays as it was.
    pub process_delivery_lem :
        (Option.map summary (stored (process_delivery text w).1 id)
          ≡ some (expected n (answer n w)))
        × ((process_delivery text w).0 ≡ reply n (answer n w))
        × ((j : Uuid) → j ≢ id → stored (process_delivery text w).1 j ≡ stored w j)
    process_delivery_lem = (process-row.0, process-row.1, process-other)

    -- When the store does not fail, and the breaker refuses the call for a notification that is not
    -- settled, its error is none that `isTransient` knows: the notification fails for good at this
    -- attempt, and the consumer is told that all is well.
    pub breaker_refusal_is_final :
        (reason : String)
        → verdict (breaker n) (tick (tick (tick w))) ≡ some reason
        → (Option.map (λ m. m.status) (stored (process_delivery text w).1 id) ≡ some failed)
          × ((process_delivery text w).0 ≡ ok tt)
    breaker_refusal_is_final reason refused =
        let refusal : answer n w ≡ err (foreign reason) = send-refused n _ reason refused in
        let (a, b) = process-row in
        (
          status-summary _ _ a
              ∙ ap (λ r. some (expected n r).status) refusal
              ∙ (unfold expected is_transient in refl),
          b ∙ ap (reply n) refusal ∙ (unfold reply is_transient in refl),
        )
