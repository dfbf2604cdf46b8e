-- ===== src/App/NotificationService/Expired.antt =====
-- An idempotency key after its 24 hours.
use mathlib.Core.Path.{subst}
use event_driven_ns.Prelude.{true, Option, none, some, String, ◌≡◌, ◌≢◌, refl, sym, ap, ◌∙◌, arith}
use event_driven_ns.Domain.Error.{Result, ok, err}
use event_driven_ns.Domain.Notification.{Uuid, Notification, new_notification}
use event_driven_ns.Domain.Template.{render}
use event_driven_ns.Platform.{Platform}
use event_driven_ns.World.{World, tick, pure, lift, ◌>>=◌, time_now, new_uuid}
use event_driven_ns.World.Hoare.{After, Hoare, then_do, Steady, Steady-intro}
use event_driven_ns.Postgres.Table.{has_row}
use event_driven_ns.Postgres.Driver.{run, query, wrap_idempotency_error}
use event_driven_ns.Postgres.Rows.{has_key, insert_notification}
use event_driven_ns.Postgres.Idempotency
use event_driven_ns.Postgres.Idempotency.{is_live, select_key, check_result}
use event_driven_ns.Postgres.Notifications
use event_driven_ns.Postgres.Templates
use event_driven_ns.Postgres.Templates.{select_template}
use event_driven_ns.Postgres.Atomic.{Anything, AfterRows-failure, is_failure, run-Hoare}
use event_driven_ns.App.NotificationService.{
  CreateNotificationInput, content_of, build, create_new, create, existing_id,
}
use event_driven_ns.App.NotificationService.Repeat.{live_row}
use event_driven_ns.App.NotificationService.KeyRows.{weak}

-- A notification was stored with the key.
abbrev IsTaken : String → World → Type 0
IsTaken key w = has_row (λ r. has_key r.idempotency_key (some key)) w.notifications ≡ true

module _ ⦃p : Platform⦄ (key : String) where
  lookup-Steady : (id : Uuid) → Steady (IsTaken key) (Templates.get_by_id id)
  unfolding Templates.get_by_id select_template run query
  lookup-Steady id = Steady-intro (Templates.get_by_id id) (λ w h. ground arith)

  content_at :
      (o : Option Uuid) (input : CreateNotificationInput)
      → Steady (IsTaken key) (elim o [
        | none ↦ pure input.content
        | some id ↦ do tmpl ← Templates.get_by_id id; lift (render tmpl input.template_variables)
      ])
  content_at none input = Steady-intro (pure input.content) (λ w i. i)
  content_at (some id) input =
      then_do (lookup-Steady id)
        (λ t. Steady-intro (lift (render t input.template_variables)) (λ w i. i))

  content_of-Steady : (input : CreateNotificationInput) → Steady (IsTaken key) (content_of input)
  unfolding content_of
  content_of-Steady input = content_at input.template_id input

  now-Steady : Steady (IsTaken key) time_now
  unfolding time_now
  now-Steady = Steady-intro time_now (λ w i. i)

  uuid-Steady : Steady (IsTaken key) new_uuid
  unfolding new_uuid
  uuid-Steady = Steady-intro new_uuid (λ w i. i)

  -- What is built carries the key of the input.
  build-Hoare :
      (input : CreateNotificationInput) (content : String)
      → Hoare
          (IsTaken key)
          (build input none content)
          (λ n w. IsTaken key w × (n.idempotency_key ≡ input.idempotency_key))
          Anything
  unfolding build
  build-Hoare input content = then_do (weak now-Steady) (λ now. then_do (weak uuid-Steady) (λ id.
      then_do
        (weak (
          Steady-intro
            (lift (
              new_notification id now input.channel input.recipient content input.priority
                input.scheduled_at))
            (λ w i. i)))
        (λ n. record { run = λ w i. (i, refl) })))

  insert-fails :
      (n : Notification) (w : World)
      → IsTaken key w
      → n.idempotency_key ≡ some key
      → is_failure (insert_notification n w).0 ≡ true
  unfolding insert_notification
  insert-fails n w taken k =
      let clash : has_row (λ r. has_key r.idempotency_key n.idempotency_key) w.notifications
          ≡ true =
        subst (λ o. has_row (λ r. has_key r.idempotency_key o) w.notifications ≡ true) (sym k)
          taken in
      ground arith

  create_new-Hoare :
      (input : CreateNotificationInput)
      → input.idempotency_key ≡ some key
      → Hoare (IsTaken key) (create_new input) (λ _ _. ⊥) Anything
  unfolding create_new Notifications.create
  create_new-Hoare input k = then_do (weak (content_of-Steady input)) (λ content.
      then_do (build-Hoare input content) (λ n.
        then_do
          (run-Hoare (λ w. IsTaken key w × (n.idempotency_key ≡ input.idempotency_key)) Anything
            (λ _ _. ⊥) wrap_idempotency_error (insert_notification n) (λ w i. tt)
            (λ w (taken, same).
              AfterRows-failure (λ _ _. ⊥) (insert_notification n (tick w)).0 _
                (insert-fails n (tick w) taken (same ∙ k))))
          (λ _. record { run = λ w i. absurd i })))

  no_hit :
      (w : World)
      → live_row w (p.now w.step) key ≡ none
      → existing_id (some key) w ≡ (ok none, tick w)
  unfolding existing_id Idempotency.check query select_key live_row check_result
  no_hit w h = ground arith

  never :
      (r : Result Notification) (v : World)
      → After (λ (_ : Notification) _. ⊥) Anything r v
      → (n : Notification) → r ≢ ok n
  never (ok m) v h n e = h
  never (err f) v h n e = absurd (cc)

  -- A key that is live no more, but with which a notification is stored, is lost: whatever fails and
  -- whatever else the request says, `Create` with it never succeeds.
  pub create-expired :
      (input : CreateNotificationInput) (w : World)
      → input.idempotency_key ≡ some key
      → live_row w (p.now w.step) key ≡ none
      → has_row (λ r. has_key r.idempotency_key (some key)) w.notifications ≡ true
      → (n : Notification) → (create input w).0 ≢ ok n
  unfolding create
  create-expired input w k dead taken n = rw (ap (λ o. existing_id o w) k ∙ no_hit w dead) (
      never (create_new input (tick w)).0 (create_new input (tick w)).1
        ((create_new-Hoare input k).run (tick w) taken) n)
