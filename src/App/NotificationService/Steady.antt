-- ===== src/App/NotificationService/Steady.antt =====
-- The steps of `Create` in internal/app/notification_service.go before its INSERT: they write nothing; and the INSERT.
use event_driven_ns.Prelude.{
  Option, String, none, some, ◌≡◌, refl, arith, true, false, [], ◌∷◌, ◌++◌, ◌⊎◌, inl, inr, sym,
  ◌==◌,
}
use mathlib.Core.Path.{subst}
use event_driven_ns.Domain.Error.{Result, ok, err}
use event_driven_ns.Domain.Notification.{Uuid, Time, Notification, new_notification}
use event_driven_ns.Domain.Template.{render}
use event_driven_ns.Platform.{Platform}
use event_driven_ns.World.{World, tick, pure, lift, ◌>>=◌, time_now, new_uuid}
use event_driven_ns.World.Hoare.{Hoare, consequence, then_do, Steady, Steady-intro}
use event_driven_ns.Postgres.Driver.{DbResult, rows, run, query, wrap_idempotency_error}
use event_driven_ns.Postgres.Table.{has_row}
use event_driven_ns.Postgres.Table.Lookup.{find_row-append}
use event_driven_ns.Postgres.Rows.{inserted, insert_notification}
use event_driven_ns.Postgres.Healthy.{stored}
use event_driven_ns.Postgres.Notifications
use event_driven_ns.Postgres.Atomic.{Anything, AfterRows, AfterRows-failure, is_failure, run-Hoare}
use event_driven_ns.Postgres.Templates
use event_driven_ns.Postgres.Templates.{select_template}
use event_driven_ns.App.NotificationService.{CreateNotificationInput, content_of, build}

insert_notification_cases :
    (n : Notification) (w : World)
    → (is_failure (insert_notification n w).0 ≡ true)
      ⊎ ((insert_notification n w
            ≡ (rows tt, record w { notifications = w.notifications ++ inserted n ∷ [] }))
          × (has_row (λ r. r.id == n.id) w.notifications ≡ false))
unfolding insert_notification
insert_notification_cases n w = ground arith

-- A condition on the rows of keys and on the messages.
module _ ⦃p : Platform⦄ (I : World → Type 0)
    (keep : (w v : World) → v.keys ≡ w.keys → v.messages ≡ w.messages → I w → I v) where
  lookup-Steady : (id : Uuid) → Steady I (Templates.get_by_id id)
  unfolding Templates.get_by_id select_template run query
  lookup-Steady id =
      Steady-intro (Templates.get_by_id id)
        (λ w h. keep w (Templates.get_by_id id w).1 (ground arith) (ground arith) h)

  content_at :
      (o : Option Uuid) (input : CreateNotificationInput)
      → Steady I (elim o [
        | none ↦ pure input.content
        | some id ↦ do tmpl ← Templates.get_by_id id; lift (render tmpl input.template_variables)
      ])
  content_at none input = Steady-intro (pure input.content) (λ w i. i)
  content_at (some id) input =
      then_do (lookup-Steady id)
        (λ t. Steady-intro (lift (render t input.template_variables)) (λ w i. i))

  pub content_of-Steady : (input : CreateNotificationInput) → Steady I (content_of input)
  unfolding content_of
  content_of-Steady input = content_at input.template_id input

  pub now-Steady : Steady I time_now
  unfolding time_now
  now-Steady = Steady-intro time_now (λ w i. keep w (time_now w).1 refl refl i)

  pub uuid-Steady : Steady I new_uuid
  unfolding new_uuid
  uuid-Steady = Steady-intro new_uuid (λ w i. keep w (new_uuid w).1 refl refl i)

  -- What `lift` gives is the result that was lifted.
  lift-Hoare : {A : Type 0} (r : Result A) → Hoare I (lift r) (λ a w. I w × (r ≡ ok a)) I
  lift-Hoare (ok a) = record { run = λ w i. (i, refl) }
  lift-Hoare (err e) = record { run = λ w i. i }

  -- The notification that `build` gives is one of NewNotification, with the fields of the input.
  abbrev pub IsBuilt : CreateNotificationInput → Option Uuid → Notification → Type 0
  IsBuilt input batch_id n =
      (id : Uuid) × ((now : Time) × ((content : String) × ((m : Notification) × (new_notification id
                now input.channel input.recipient content input.priority input.scheduled_at
              ≡ ok m)
            × (n ≡ record m {
              batch_id = batch_id;
              idempotency_key = input.idempotency_key;
              template_id = input.template_id;
              template_variables = input.template_variables;
            }))))

  pub build-Hoare :
      (input : CreateNotificationInput) (batch_id : Option Uuid) (content : String)
      → Hoare I (build input batch_id content) (λ n w. I w × IsBuilt input batch_id n) I
  unfolding build
  build-Hoare input batch_id content = then_do now-Steady (λ now. then_do uuid-Steady (λ id.
      then_do
        (lift-Hoare (
          new_notification id now input.channel input.recipient content input.priority
            input.scheduled_at))
        (λ m. record { run = λ w (i, e). (i, (id, (now, (content, (m, e, refl))))) })))

  pub build-Steady :
      (input : CreateNotificationInput) (content : String) → Steady I (build input none content)
  build-Steady input content = consequence (λ _. I) (λ n w h. h.0) (build-Hoare input none content)

  -- The condition, and the row of a notification.
  abbrev pub HasRow : Notification → World → Type 0
  HasRow n w = I w × (stored w n.id ≡ some (inserted n))

  insert-HasRow :
      (n : Notification) (w : World)
      → I w
      → AfterRows
          (λ (_ : Unit). HasRow n)
          Anything
          (insert_notification n w).0
          (insert_notification n w).1
  unfolding stored inserted
  insert-HasRow n w i = elim (insert_notification_cases n w) [
    | inl e ↦ AfterRows-failure _ (insert_notification n w).0 _ e
    | inr (e, new) ↦
        subst (λ (x : DbResult Unit × World). AfterRows (λ (_ : Unit). HasRow n) Anything x.0 x.1)
          (sym e)
          (
            keep w (record w { notifications = w.notifications ++ inserted n ∷ [] }) refl refl i,
            find_row-append (λ (r : Notification). r.id) n.id (inserted n) w.notifications new refl,
          )
  ]

  pub create-Stored : (n : Notification) → Hoare I (Notifications.create n) (λ _. HasRow n) Anything
  unfolding Notifications.create
  create-Stored n =
      run-Hoare I Anything (λ _. HasRow n) wrap_idempotency_error (insert_notification n)
        (λ w i. tt) (λ w i. insert-HasRow n (tick w) (keep w (tick w) refl refl i))
