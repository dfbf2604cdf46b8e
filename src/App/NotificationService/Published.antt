-- ===== src/App/NotificationService/Published.antt =====
-- What `Create` of internal/app/notification_service.go leaves for the worker: the row of the
-- notification and one message, on the topic of its priority.
use mathlib.Core.Path.{subst}
use event_driven_ns.Prelude.{
  [], ◌∷◌, ◌++◌, Option, none, some, String, str_eq, eq_iff, ◌≡◌, refl, ◌==◌, sym, ap, ◌∙◌, arith,
}
use event_driven_ns.Domain.Error.{Result, ok}
use event_driven_ns.Domain.Notification.{Notification}
use event_driven_ns.Platform.{Platform}
use event_driven_ns.World.{World, pure, ◌>>◌, NotificationPayload, Message, json, tick, time_now}
use event_driven_ns.World.Hoare.{After, Hoare, on_errors, then_do, Steady, Steady-intro}
use event_driven_ns.Postgres.Table.{find_row, select_where}
use event_driven_ns.Postgres.Table.Lookup.{select_where-append}
use event_driven_ns.Postgres.Driver.{run, query}
use event_driven_ns.Postgres.Rows.{inserted}
use event_driven_ns.Postgres.Healthy.{IsHealthy, stored}
use event_driven_ns.Postgres.Columns.{new_notification-made}
use event_driven_ns.Postgres.Idempotency
use event_driven_ns.Postgres.Notifications
use event_driven_ns.Postgres.Atomic.{Anything}
use event_driven_ns.Queue.Publisher.{topic_for_priority, enqueue, payload}
use event_driven_ns.Queue.Publisher.Healthy.{enqueue-healthy}
use event_driven_ns.Queue.Consumer.Requeue.{backlog}
use event_driven_ns.App.NotificationService.{
  CreateNotificationInput, existing_id, remember, publish, create_new, create,
}
use event_driven_ns.App.NotificationService.KeyRows.{weak}
use event_driven_ns.App.NotificationService.Steady.{
  HasRow, IsBuilt, content_of-Steady, build-Hoare, create-Stored,
}
use event_driven_ns.App.NotificationService.Ready.{IsReady, made-IsReady, IsReady-filled}

module _ ⦃p : Platform⦄ (healthy : IsHealthy p) (topic : String) where
  -- The topic has no message.
  abbrev pub Quiet : World → Type 0
  Quiet w = backlog topic w ≡ []

  keep : (w v : World) → v.keys ≡ w.keys → v.messages ≡ w.messages → Quiet w → Quiet v
  unfolding backlog
  keep w v e f h = ap (select_where (λ m. str_eq m.topic topic)) f ∙ h

  keep_messages : (w v : World) → v.messages ≡ w.messages → Quiet w → Quiet v
  unfolding backlog
  keep_messages w v f h = ap (select_where (λ m. str_eq m.topic topic)) f ∙ h

  built-IsReady :
      (input : CreateNotificationInput) (n : Notification)
      → input.scheduled_at ≡ none
      → topic_for_priority input.priority ≡ some topic
      → IsBuilt Quiet keep input none n
      → IsReady topic n
  built-IsReady input n now_due known (id, (now, (content, (m, e, f)))) =
      subst (IsReady topic) (sym f) (
        IsReady-filled topic m none input.idempotency_key input.template_id input.template_variables
          (subst (IsReady topic)
            (new_notification-made id now input.channel input.recipient content input.priority
              input.scheduled_at m e)
            (made-IsReady topic input id now content now_due known)))

  -- The message of a notification, alone on its topic, and its row.
  abbrev pub IsPublished : Notification → World → Type 0
  IsPublished n w =
      ((m : Message) × ((load : NotificationPayload) × (backlog topic w ≡ m ∷ [])
          × (m.value ≡ json load)
          × (load.notification_id ≡ p.uuid_string n.id)))
      × (stored w n.id ≡ some (inserted n))

  remember-messages :
      (o : Option String) (n : Notification) (w : World) → (remember o n w).1.messages ≡ w.messages
  unfolding remember Idempotency.set_nx run query Idempotency.add_key time_now
  remember-messages none n w = refl
  remember-messages (some key) n w = ground arith

  remember-notifications :
      (o : Option String) (n : Notification) (w : World)
      → (remember o n w).1.notifications ≡ w.notifications
  unfolding remember Idempotency.set_nx run query Idempotency.add_key time_now
  remember-notifications none n w = refl
  remember-notifications (some key) n w = ground arith

  remember-Steady :
      (o : Option String) (n : Notification) → Steady (HasRow Quiet keep n) (remember o n)
  unfolding stored backlog
  remember-Steady o n = Steady-intro (remember o n) (λ w (quiet, there). (
    ap (select_where (λ m. str_eq m.topic topic)) (remember-messages o n w) ∙ quiet,
    ap (find_row (λ r. r.id == n.id)) (remember-notifications o n w) ∙ there,
  ))

  publish-enqueue :
      (n : Notification) (w : World) → n.scheduled_at ≡ none → publish n w ≡ enqueue n w
  unfolding publish
  publish-enqueue n w h = rw h refl

  message_added :
      (n : Notification) (w : World)
      → Quiet w
      → stored w n.id ≡ some (inserted n)
      → IsPublished n (record w {
        step = (tick w).step;
        messages =
            w.messages
            ++ record { topic = topic; key = p.uuid_string n.id; value = json (payload n w) } ∷ [];
      })
  unfolding stored backlog payload select_where
  message_added n w quiet there = (
    (
      record { topic = topic; key = p.uuid_string n.id; value = json (payload n w) },
      (
        payload n w,
        select_where-append (λ (m : Message). str_eq m.topic topic) w.messages
              (record { topic = topic; key = p.uuid_string n.id; value = json (payload n w) } ∷ [])
            ∙ rw ((eq_iff topic topic).1 refl) (
                ap
                  (λ t.
                    t
                    ++ record {
                      topic = topic;
                      key = p.uuid_string n.id;
                      value = json (payload n w);
                    }
                      ∷ [])
                  quiet),
        refl,
        refl,
      ),
    ),
    there,
  )

  publish-Hoare :
      (n : Notification)
      → IsReady topic n
      → Hoare (HasRow Quiet keep n) (publish n) (λ _. IsPublished n) Anything
  publish-Hoare n ready = record {
    run = λ w (quiet, there).
        subst (λ x. After (λ _. IsPublished n) Anything x.0 x.1)
          (sym (
            publish-enqueue n w ready.unscheduled
            ∙ enqueue-healthy healthy topic n w ready.topic_known))
          (message_added n w quiet there);
  }

  stored-IsReady :
      (key : Option String) (n : Notification)
      → IsReady topic n
      → Hoare Quiet
          (do Notifications.create n; remember key n; publish n; pure n)
          (λ m w. IsPublished m w × IsReady topic m)
          Anything
  stored-IsReady key n ready = then_do (create-Stored Quiet keep n) (λ _.
      then_do (weak (remember-Steady key n))
        (λ _. then_do (publish-Hoare n ready) (λ _. record { run = λ w i. (i, ready) })))

  create_new-Hoare :
      (input : CreateNotificationInput)
      → input.scheduled_at ≡ none
      → topic_for_priority input.priority ≡ some topic
      → Hoare Quiet (create_new input) (λ n w. IsPublished n w × IsReady topic n) Anything
  unfolding create_new
  create_new-Hoare input now_due known =
      then_do (weak (content_of-Steady Quiet keep input)) (λ content.
        then_do (on_errors Anything (λ w h. tt) (build-Hoare Quiet keep input none content)) (λ n.
          record {
            run = λ w (quiet, built).
                let ready = built-IsReady input n now_due known built in
                (stored-IsReady input.idempotency_key n ready).run w quiet;
          }))

  existing_id-messages : (o : Option String) (w : World) → (existing_id o w).1.messages ≡ w.messages
  unfolding existing_id Idempotency.check query Idempotency.select_key
  existing_id-messages none w = refl
  existing_id-messages (some key) w = ground arith

  create_found :
      (input : CreateNotificationInput) (w : World)
      → (existing_id input.idempotency_key w).0 ≡ ok none
      → create input w ≡ create_new input (existing_id input.idempotency_key w).1
  unfolding create
  create_found input w h = rw h refl

  -- With a store and a broker that do not fail, a Create for which no key was found, of a notification
  -- that is not scheduled, leaves the row of the notification and one message, on the topic of its
  -- priority, if the topic had none.
  pub create-IsPublished :
      (input : CreateNotificationInput) (w : World) (n : Notification)
      → (existing_id input.idempotency_key w).0 ≡ ok none
      → input.scheduled_at ≡ none
      → topic_for_priority input.priority ≡ some topic
      → backlog topic w ≡ []
      → (create input w).0 ≡ ok n
      → IsPublished n (create input w).1 × IsReady topic n
  unfolding backlog
  create-IsPublished input w n unfound now_due known quiet made_ok =
      let found = existing_id input.idempotency_key w in
      subst (λ r. After (λ m v. IsPublished m v × IsReady topic m) Anything r (create input w).1)
        made_ok
        (subst
          (λ (x : Result Notification × World).
            After (λ m v. IsPublished m v × IsReady topic m) Anything x.0 x.1)
          (sym (create_found input w unfound))
          ((create_new-Hoare input now_due known).run found.1
            (keep_messages w found.1 (existing_id-messages input.idempotency_key w) quiet)))
