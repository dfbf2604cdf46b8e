-- ===== src/Worker/Drain.antt =====
-- A message is tried a bounded number of times.
use mathlib.Core.Option
use event_driven_ns.Prelude.{
  ℕ, zero, suc, ◌+◌, ◌≤◌, ◌<◌, ◌==◌, false, ◌&&◌, ltb, List, [], ◌∷◌, ◌++◌, Option, none, some,
  String, ◌≡◌, ◌⊎◌, inl, inr, refl, ap, ◌∙◌, arith, Bool-cases,
}
use event_driven_ns.Domain.Error.{Error, Result, ok, err}
use event_driven_ns.Domain.Status.{Status, processing, delivered, failed}
use event_driven_ns.Domain.Notification.{Uuid, Notification}
use event_driven_ns.Platform.{Platform, WebhookResponse}
use event_driven_ns.World.{World, Message, NotificationPayload, json, Bytes, tick, error_of}
use event_driven_ns.Postgres.Table.{find_row}
use event_driven_ns.Postgres.Healthy.{IsHealthy, stored}
use event_driven_ns.Queue.Publisher.{write_message}
use event_driven_ns.Queue.Consumer.{
  consume, consume_rounds, process_first, handle_message, handle_value, retry_if_failed, retry,
}
use event_driven_ns.Queue.Consumer.Requeue.{
  backlog, returned, backlog-consume, first_of_topic-backlog,
}
use event_driven_ns.App.DeliveryService.{is_settled, is_transient, process_delivery}
use event_driven_ns.App.DeliveryService.Outcome.{
  Summary, summary, summary_row, expected, status-summary,
}
use event_driven_ns.App.DeliveryService.Process.{reply, answer, process_delivery_lem}
use event_driven_ns.App.DeliveryService.Silent.{process_delivery-IsQuiet}
use event_driven_ns.Worker.{work}

-- Delivered or failed.
abbrev pub IsOver : Option Status → Type 0
IsOver o = (o ≡ some delivered) ⊎ (o ≡ some failed)

-- An attempt is the last one, or asks for another with one more attempt on the count.
data Verdict (n : Notification) (a : Result WebhookResponse) : Type 0 where
  final :
      reply n a ≡ ok tt
      → ((expected n a).status ≡ delivered) ⊎ ((expected n a).status ≡ failed)
      → Verdict n a
  again :
      (e : Error)
      → reply n a ≡ err e
      → expected n a ≡ record (summary n) { status = processing; retry_count = n.retry_count + 1 }
      → n.retry_count + 1 < n.max_retries
      → Verdict n a

verdict : (n : Notification) (a : Result WebhookResponse) → Verdict n a
unfolding reply expected
verdict n (ok response) = final refl (inl refl)
verdict n (err e) = elim (Bool-cases (is_transient e && ltb (n.retry_count + 1) n.max_retries)) [
  | inl h ↦ again e (rw h refl) (rw h refl) (ground arith)
  | inr h ↦ final (rw h refl) (inr (rw h refl))
]

IsOver-final :
    {o : Option Status} {s : Status} → o ≡ some s → (s ≡ delivered) ⊎ (s ≡ failed) → IsOver o
IsOver-final e (inl d) = inl (e ∙ ap some d)
IsOver-final e (inr f) = inr (e ∙ ap some f)

module _ ⦃p : Platform⦄ where
  notifications-retry_if_failed :
      (m : Message) (o : Option Error) (w : World)
      → (retry_if_failed m o w).1.notifications ≡ w.notifications
  unfolding retry_if_failed retry write_message
  notifications-retry_if_failed m o w = ground arith

  notifications-handle_value :
      (m : Message) (payload : NotificationPayload) (bytes : Bytes) (w : World)
      → bytes ≡ json payload
      → (handle_value process_delivery m bytes w).1.notifications
        ≡ (process_delivery payload.notification_id w).1.notifications
  unfolding handle_value
  notifications-handle_value m payload bytes w e =
      let (r, v) = process_delivery payload.notification_id w in
      ap (λ b. (handle_value process_delivery m b w).1.notifications) e
      ∙ notifications-retry_if_failed m (error_of r) v

module _ ⦃p : Platform⦄ (healthy : IsHealthy p) (topic : String) (m : Message)
    (payload : NotificationPayload) (id : Uuid) (carries : m.value ≡ json payload)
    (parses : p.uuid_parse payload.notification_id ≡ (id, none)) where
  pub stored-consume :
      (w : World) (rest : List Message)
      → backlog topic w ≡ m ∷ rest
      → stored (consume process_delivery topic w) id
        ≡ stored (process_delivery payload.notification_id (tick w)).1 id
  unfolding consume process_first stored backlog handle_message
  stored-consume w rest waits =
      rw
        (
          healthy w.step,
          consume,
          first_of_topic-backlog topic w.messages m rest waits,
          process_first,
        )
        (ap (find_row (λ r. r.id == id))
          (notifications-handle_value m payload m.value (tick w) carries))

  abbrev IsDone : World → Type 0
  IsDone w = (backlog topic w ≡ []) × IsOver (Option.map (λ n. n.status) (stored w id))

  -- What one round leads to.
  after_round :
      (b : ℕ) (w : World) (n : Notification)
      → backlog topic w ≡ m ∷ []
      → stored w id ≡ some n
      → is_settled n.status ≡ false
      → n.max_retries ≤ n.retry_count + suc b
      → IsDone (consume process_delivery topic w)
        ⊎ ((n' : Notification) × (backlog topic (consume process_delivery topic w) ≡ m ∷ [])
            × (stored (consume process_delivery topic w) id ≡ some n')
            × (is_settled n'.status ≡ false)
            × (n'.max_retries ≤ n'.retry_count + b)
            × (1 ≤ b))
  unfolding stored
  after_round b w n waits found unsettled room =
      let (a, r, others) =
        process_delivery_lem (tick w) payload.notification_id id n parses found healthy unsettled in
      let left =
        backlog-consume healthy process_delivery process_delivery-IsQuiet topic w m [] payload waits
          carries in
      let kept = stored-consume w [] waits in
      elim (verdict n (answer n (tick w))) [
        | final done over ↦ inl (
          left ∙ ap (λ t. [] ++ returned t m) (r ∙ done),
          IsOver-final (ap (Option.map (λ x. x.status)) kept ∙ status-summary _ _ a) over,
        )
        | again e asks now more ↦
            let (n', row, same) = summary_row _ _ (a ∙ ap some now) in
            let count = ap (λ (t : Summary). t.retry_count) same in
            let cap = ap (λ (t : Summary). t.max_retries) same in
            inr (
              n',
              left ∙ ap (λ t. [] ++ returned t m) (r ∙ asks),
              kept ∙ row,
              ap (λ (t : Summary). is_settled t.status) same ∙ (unfold is_settled in refl),
              omega arith,
              omega arith,
            )
      ]

  -- When neither the store nor Kafka fails, a topic with one message, of a notification that is not
  -- settled, is drained in as many rounds as the notification has attempts left, and at least one,
  -- whatever the provider answers: then its notification is delivered or failed, and no message
  -- waits.
  pub drain :
      (b : ℕ) (w : World) (n : Notification)
      → backlog topic w ≡ m ∷ []
      → stored w id ≡ some n
      → is_settled n.status ≡ false
      → n.max_retries ≤ n.retry_count + suc b
      → (k : ℕ) × (k ≤ suc b) × IsDone (work k topic w)
  unfolding consume_rounds
  drain zero w n waits found unsettled room =
      elim (after_round zero w n waits found unsettled room) [
        | inl done ↦ (1, omega arith, done)
        | inr (n', waits', found', unsettled', room', more) ↦ absurd (omega arith)
      ]
  drain (suc b) w n waits found unsettled room =
      elim (after_round (suc b) w n waits found unsettled room) [
        | inl done ↦ (1, omega arith, done)
        | inr (n', waits', found', unsettled', room', more) ↦
            let (k, bound, done) =
              drain b (consume process_delivery topic w) n' waits' found' unsettled' room' in
            (suc k, omega arith, done)
      ]
