-- ===== src/Program/Requests.antt =====
-- The scheduler and the requests of clients keep the tables sound, whatever fails.
use event_driven_ns.Prelude.{List, [], ◌∷◌, none, some, ◌≡◌, refl, Option, String}
use event_driven_ns.Domain.Error.{Error, Result, ok, err}
use event_driven_ns.Domain.Notification.{Uuid, Time, Notification}
use event_driven_ns.Domain.Template.{render}
use event_driven_ns.Platform.{Platform}
use event_driven_ns.World.{pure, ◌>>=◌, ◌>>◌, attempt, lift}
use event_driven_ns.World.Triple.{
  OnOk, OnOk-Any, Any, Triple, bind, attempt-Triple, pure-Triple, lift-Triple,
}
use event_driven_ns.Postgres.Notifications
use event_driven_ns.Postgres.Templates
use event_driven_ns.Queue.Publisher.{enqueue, enqueue_scheduled}
use event_driven_ns.App.NotificationService.{
  CreateNotificationInput, existing_id, content_of, build, remember, publish, create_new, create,
}
use event_driven_ns.App.Scheduler.{
  mark_pending, stuck_after, requeue, requeue_all, or_return, process_scheduled, recover_stuck,
  round,
}
use event_driven_ns.Program.Sound.{IsSound}
use event_driven_ns.Program.Store.{get_by_id-Triple, update_status-Triple, create-Triple}
use event_driven_ns.Program.Queries.{
  time_now-Triple, new_uuid-Triple, list_due_scheduled-Triple, list_stuck_processing-Triple,
  check-Triple, set_nx-Triple, template_get_by_id-Triple,
}
use event_driven_ns.Program.New.{IsNew, IsNew-IsInsertable, made-IsNew}
use event_driven_ns.Program.Delivery.{enqueue-Triple}

module _ ⦃p : Platform⦄ where
  requeue-Triple : (n : Notification) → Triple IsSound (requeue n) Any
  unfolding requeue mark_pending
  requeue-Triple n = bind time_now-Triple (λ now _.
      bind (attempt-Triple (update_status-Triple (mark_pending now n) tt))
        (λ failure _. enqueue_unless failure (mark_pending now n)))
    where
      enqueue_unless :
          (o : Option Error) (n : Notification)
          → Triple IsSound
              (elim o [ some e ↦ pure tt | none ↦ (do attempt (enqueue n); pure tt) ])
              Any
      enqueue_unless none n = bind (attempt-Triple (enqueue-Triple n)) (λ _ _. pure-Triple tt tt)
      enqueue_unless (some e) n = pure-Triple tt tt

  requeue_all-Triple : (ns : List Notification) → Triple IsSound (requeue_all ns) Any
  unfolding requeue_all
  requeue_all-Triple [] = pure-Triple tt tt
  requeue_all-Triple (n ∷ ns) = bind (requeue-Triple n) (λ _ _. requeue_all-Triple ns)

  or_return-Triple : (r : Result (List Notification)) → Triple IsSound (or_return r) Any
  unfolding or_return
  or_return-Triple (ok ns) = requeue_all-Triple ns
  or_return-Triple (err e) = pure-Triple tt tt

  process_scheduled-Triple : Triple IsSound process_scheduled Any
  unfolding process_scheduled
  process_scheduled-Triple = record {
    keeps = λ w i. (or_return-Triple _).keeps _ ((list_due_scheduled-Triple 100).keeps w i).0;
  }

  recover_stuck-Triple : Triple IsSound recover_stuck Any
  unfolding recover_stuck
  recover_stuck-Triple = record {
    keeps = λ w i.
        (or_return-Triple _).keeps _ ((list_stuck_processing-Triple stuck_after 50).keeps w i).0;
  }

  pub round-Triple : Triple IsSound round Any
  unfolding round
  round-Triple = bind process_scheduled-Triple (λ _ _. recover_stuck-Triple)

  render_with :
      (o : Option Uuid) (input : CreateNotificationInput)
      → Triple IsSound
          (elim o [
            | none ↦ pure input.content
            | some id ↦ do
              tmpl ← Templates.get_by_id id
              lift (render tmpl input.template_variables)
          ])
          Any
  render_with none input = pure-Triple input.content tt
  render_with (some id) input =
      bind (template_get_by_id-Triple id) (λ t _. lift-Triple _ (OnOk-Any _))

  pub content_of-Triple : (input : CreateNotificationInput) → Triple IsSound (content_of input) Any
  unfolding content_of
  content_of-Triple input = render_with input.template_id input

  pub on_ok : {A : Type 0} (P : A → Type 0) (r : Result A) → ((a : A) → r ≡ ok a → P a) → OnOk P r
  on_ok P (ok a) h = h a refl
  on_ok P (err e) h = tt

  pub build-Triple :
      (input : CreateNotificationInput) (batch_id : Option Uuid) (content : String)
      → Triple IsSound (build input batch_id content) IsNew
  unfolding build
  build-Triple input batch_id content = bind time_now-Triple (λ now _. bind new_uuid-Triple (λ id _.
      bind
        (lift-Triple {P = IsNew} _ (
          on_ok IsNew _ (
            made-IsNew id now input.channel input.recipient content input.priority
              input.scheduled_at)))
        (λ n h.
          pure-Triple _
            (record { acceptable = h.acceptable; attempts = h.attempts; start = h.start }))))

  remember-Triple : (o : Option String) (n : Notification) → Triple IsSound (remember o n) Any
  unfolding remember
  remember-Triple none n = pure-Triple tt tt
  remember-Triple (some key) n =
      bind (attempt-Triple (set_nx-Triple key _)) (λ _ _. pure-Triple tt tt)

  publish_at :
      (o : Option Time) (n : Notification)
      → Triple IsSound (elim o [ some t ↦ enqueue_scheduled n | none ↦ enqueue n ]) Any
  unfolding enqueue_scheduled
  publish_at none n = enqueue-Triple n
  publish_at (some t) n = pure-Triple tt tt

  pub publish-Triple : (n : Notification) → Triple IsSound (publish n) Any
  unfolding publish
  publish-Triple n = publish_at n.scheduled_at n

  create_new-Triple : (input : CreateNotificationInput) → Triple IsSound (create_new input) Any
  unfolding create_new
  create_new-Triple input = bind (content_of-Triple input) (λ content _.
      bind (build-Triple input none content) (λ n h.
        bind (create-Triple n (IsNew-IsInsertable n h)) (λ _ _.
          bind (remember-Triple input.idempotency_key n)
            (λ _ _. bind (publish-Triple n) (λ _ _. pure-Triple n tt)))))

  existing_id-Triple : (o : Option String) → Triple IsSound (existing_id o) Any
  unfolding existing_id
  existing_id-Triple none = record { keeps = λ w i. (i, tt) }
  existing_id-Triple (some key) = record { keeps = λ w i. (((check-Triple key).keeps w i).0, tt) }

  by_key :
      (input : CreateNotificationInput) (o : Option String)
      → Triple IsSound
          (elim o [
            | some text ↦ Notifications.get_by_id (p.uuid_parse text).0
            | none ↦ create_new input
          ])
          Any
  by_key input none = create_new-Triple input
  by_key input (some text) = record {
    keeps = λ w i. (((get_by_id-Triple (p.uuid_parse text).0).keeps w i).0, OnOk-Any _);
  }

  pub service_create-Triple : (input : CreateNotificationInput) → Triple IsSound (create input) Any
  unfolding create
  service_create-Triple input =
      bind (existing_id-Triple input.idempotency_key) (λ found _. by_key input found)
