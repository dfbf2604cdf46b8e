-- ===== src/Program/Final/Requests.antt =====
-- The scheduler and the requests of clients on a notification whose status is final.
use event_driven_ns.Prelude.{List, [], ◌∷◌, none, some, ◌≡◌, refl, Option, String}
use event_driven_ns.Domain.Error.{Error, Result, ok, err}
use event_driven_ns.Domain.Notification.{Uuid, Time, Notification, new_notification}
use event_driven_ns.Domain.Template.{render}
use event_driven_ns.Platform.{Platform}
use event_driven_ns.World.{pure, ◌>>=◌, ◌>>◌, attempt, lift}
use event_driven_ns.World.Triple.{
  OnOk, OnOk-Any, Any, Triple, bind, attempt-Triple, pure-Triple, lift-Triple,
}
use event_driven_ns.Postgres.Notifications
use event_driven_ns.Postgres.Templates
use event_driven_ns.Queue.Publisher.{enqueue, enqueue_scheduled}
use event_driven_ns.App.NotificationService.{
  CreateNotificationInput, existing_id, content_of, build, remember, publish, create_new, create,
}
use event_driven_ns.App.Scheduler.{
  mark_pending, stuck_after, requeue, requeue_all, or_return, process_scheduled, recover_stuck,
  round,
}
use event_driven_ns.Prelude.{All, true, ◌≢◌, arith}
use event_driven_ns.Domain.Status.{Status}
use event_driven_ns.World.{time_now, new_uuid}
use event_driven_ns.Postgres.Idempotency
use event_driven_ns.Postgres.Idempotency.{select_key, add_key}
use event_driven_ns.Postgres.Driver.{run, query}
use event_driven_ns.Postgres.Templates.{select_template}
use event_driven_ns.App.DeliveryService.{is_settled}
use event_driven_ns.Program.Final.Store.{
  HasFinal, elsewhere, create-Final, get_by_id-Final, update_status-Final,
}
use event_driven_ns.Program.Final.Selected.{list_due-Final, list_stuck-Final}
use event_driven_ns.Program.Final.Delivery.{now-Final, enqueue-Final}

module _ ⦃p : Platform⦄ (id : Uuid) (s : Status) (final : is_settled s ≡ true) where
  requeue-Final : (n : Notification) → n.id ≢ id → Triple (HasFinal id s) (requeue n) Any
  unfolding requeue mark_pending
  requeue-Final n apart = bind (now-Final id s) (λ now _.
      bind (attempt-Triple (update_status-Final id s (mark_pending now n) apart))
        (λ failure _. enqueue_unless failure (mark_pending now n)))
    where
      enqueue_unless :
          (o : Option Error) (n : Notification)
          → Triple
              (HasFinal id s)
              (elim o [ some e ↦ pure tt | none ↦ (do attempt (enqueue n); pure tt) ])
              Any
      enqueue_unless none n =
          bind (attempt-Triple (enqueue-Final id s n)) (λ _ _. pure-Triple tt tt)
      enqueue_unless (some e) n = pure-Triple tt tt

  requeue_all-Final :
      (ns : List Notification)
      → All (λ r. r.id ≢ id) ns
      → Triple (HasFinal id s) (requeue_all ns) Any
  unfolding requeue_all
  requeue_all-Final [] h = pure-Triple tt tt
  requeue_all-Final (n ∷ ns) h = bind (requeue-Final n h.0) (λ _ _. requeue_all-Final ns h.1)

  or_return-Final :
      (r : Result (List Notification))
      → OnOk (All (λ n. n.id ≢ id)) r
      → Triple (HasFinal id s) (or_return r) Any
  unfolding or_return
  or_return-Final (ok ns) h = requeue_all-Final ns h
  or_return-Final (err e) h = pure-Triple tt tt

  process_scheduled-Final : Triple (HasFinal id s) process_scheduled Any
  unfolding process_scheduled
  process_scheduled-Final = record {
    keeps = λ w i.
        let (j, k) = (list_due-Final id s final 100).keeps w i in (or_return-Final _ k).keeps _ j;
  }

  recover_stuck-Final : Triple (HasFinal id s) recover_stuck Any
  unfolding recover_stuck
  recover_stuck-Final = record {
    keeps = λ w i.
        let (j, k) = (list_stuck-Final id s final stuck_after 50).keeps w i in
        (or_return-Final _ k).keeps _ j;
  }

  pub round-Final : Triple (HasFinal id s) round Any
  unfolding round
  round-Final = bind process_scheduled-Final (λ _ _. recover_stuck-Final)

  pub uuid-Final : Triple (HasFinal id s) new_uuid Any
  unfolding new_uuid
  uuid-Final = elsewhere id s new_uuid (λ w. refl)

  template-Final : (i : Uuid) → Triple (HasFinal id s) (Templates.get_by_id i) Any
  unfolding Templates.get_by_id select_template run query
  template-Final i = elsewhere id s (Templates.get_by_id i) (λ w. ground arith)

  render_with :
      (o : Option Uuid) (input : CreateNotificationInput)
      → Triple
          (HasFinal id s)
          (elim o [
            | none ↦ pure input.content
            | some i ↦ do tmpl ← Templates.get_by_id i; lift (render tmpl input.template_variables)
          ])
          Any
  render_with none input = pure-Triple input.content tt
  render_with (some i) input = bind (template-Final i) (λ t _. lift-Triple _ (OnOk-Any _))

  pub content_of-Final :
      (input : CreateNotificationInput) → Triple (HasFinal id s) (content_of input) Any
  unfolding content_of
  content_of-Final input = render_with input.template_id input

  pub build-Final :
      (input : CreateNotificationInput) (batch_id : Option Uuid) (content : String)
      → Triple (HasFinal id s) (build input batch_id content) Any
  unfolding build
  build-Final input batch_id content = bind (now-Final id s) (λ now _. bind uuid-Final (λ i _.
      let made =
        new_notification i now input.channel input.recipient content input.priority
          input.scheduled_at in
      bind (lift-Triple {P = Any} made (OnOk-Any made)) (λ n _. pure-Triple _ tt)))

  remember-Final :
      (o : Option String) (n : Notification) → Triple (HasFinal id s) (remember o n) Any
  unfolding remember Idempotency.set_nx run query add_key time_now
  remember-Final none n = pure-Triple tt tt
  remember-Final (some key) n = elsewhere id s (remember (some key) n) (λ w. ground arith)

  publish_at :
      (o : Option Time) (n : Notification)
      → Triple (HasFinal id s) (elim o [ some t ↦ enqueue_scheduled n | none ↦ enqueue n ]) Any
  unfolding enqueue_scheduled
  publish_at none n = enqueue-Final id s n
  publish_at (some t) n = pure-Triple tt tt

  pub publish-Final : (n : Notification) → Triple (HasFinal id s) (publish n) Any
  unfolding publish
  publish-Final n = publish_at n.scheduled_at n

  create_new-Final :
      (input : CreateNotificationInput) → Triple (HasFinal id s) (create_new input) Any
  unfolding create_new
  create_new-Final input = bind (content_of-Final input) (λ content _.
      bind (build-Final input none content) (λ n _. bind (create-Final id s n) (λ _ _.
        bind (remember-Final input.idempotency_key n)
          (λ _ _. bind (publish-Final n) (λ _ _. pure-Triple n tt)))))

  existing_id-Final : (o : Option String) → Triple (HasFinal id s) (existing_id o) Any
  unfolding existing_id Idempotency.check query select_key
  existing_id-Final none = record { keeps = λ w i. (i, tt) }
  existing_id-Final (some key) = elsewhere id s (existing_id (some key)) (λ w. ground arith)

  by_key :
      (input : CreateNotificationInput) (o : Option String)
      → Triple
          (HasFinal id s)
          (elim o [
            | some text ↦ Notifications.get_by_id (p.uuid_parse text).0
            | none ↦ create_new input
          ])
          Any
  by_key input none = create_new-Final input
  by_key input (some text) = record {
    keeps = λ w i. (((get_by_id-Final id s (p.uuid_parse text).0).keeps w i).0, OnOk-Any _);
  }

  pub service_create-Final :
      (input : CreateNotificationInput) → Triple (HasFinal id s) (create input) Any
  unfolding create
  service_create-Final input =
      bind (existing_id-Final input.idempotency_key) (λ found _. by_key input found)
