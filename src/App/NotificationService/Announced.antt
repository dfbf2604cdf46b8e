-- ===== src/App/NotificationService/Announced.antt =====
-- What `CreateBatch` of internal/app/notification_service.go publishes.
use mathlib.Core.List.{map}
use mathlib.Core.Path.{subst}
use event_driven_ns.Prelude.{
  ◌==◌, [], ◌∷◌, ◌++◌, List, length, ltb, some, String, ◌≡◌, refl, ap, sym, ◌∙◌, arith,
}
use event_driven_ns.Domain.Error.{Result, ok, err, plain, batch_empty, batch_too_large}
use event_driven_ns.Domain.Notification.{Uuid, Notification}
use event_driven_ns.Platform.{Platform}
use event_driven_ns.World.{World, Message, NotificationBatch, continue, ◌>>◌, pure, tick}
use event_driven_ns.World.Hoare.{Hoare, After, Steady, then_do, consequence}
use event_driven_ns.Postgres.Driver.{
  wrap_idempotency_error, to_error, run, DbResult, rows, failure, settle, transaction,
}
use event_driven_ns.Postgres.Rows.{insert_notification, insert_batch}
use event_driven_ns.Postgres.Atomic.{AfterRows, run-Hoare}
use event_driven_ns.Postgres.Healthy.{IsHealthy}
use event_driven_ns.Postgres.Notifications
use event_driven_ns.Postgres.Notifications.{insert_all}
use event_driven_ns.App.NotificationService.{
  CreateNotificationInput, build_all, publish_all, create_batch,
}
use event_driven_ns.App.NotificationService.Batch.{guarded}
use event_driven_ns.App.NotificationService.Steady.{
  content_of-Steady, build-Hoare, now-Steady, uuid-Steady,
}
use event_driven_ns.App.NotificationService.Announcement.{heads, announced, publish_all-announces}

-- The messages are those.
abbrev Sent : List (String × String) → World → Type 0
Sent hs w = heads w ≡ hs

keep :
    (hs : List (String × String)) (w v : World)
    → v.keys ≡ w.keys
    → v.messages ≡ w.messages
    → Sent hs w
    → Sent hs v
keep hs w v e f h = ap (map (λ (m : Message). (m.topic, m.key))) f ∙ h

either :
    {A : Type 0} (I : World → Type 0) (r : DbResult A) (v : World) → I v → AfterRows (λ _. I) I r v
either I (rows a) v i = i
either I (failure e) v i = i

module _ ⦃p : Platform⦄ (hs : List (String × String)) where
  build_all-Steady :
      (batch_id : Uuid) (inputs : List CreateNotificationInput)
      → Steady (Sent hs) (build_all batch_id inputs)
  unfolding build_all
  build_all-Steady batch_id [] = record { run = λ w i. i }
  build_all-Steady batch_id (input ∷ inputs) =
      then_do (content_of-Steady (Sent hs) (keep hs) input) (λ content.
        then_do
          (consequence (λ _. Sent hs) (λ n w h. h.0)
            (build-Hoare (Sent hs) (keep hs) input (some batch_id) content))
          (λ n. then_do (build_all-Steady batch_id inputs) (λ ns. record { run = λ w i. i })))

  insert_notification-Steady :
      (n : Notification) → Steady (Sent hs) (run wrap_idempotency_error (insert_notification n))
  unfolding insert_notification
  insert_notification-Steady n =
      run-Hoare (Sent hs) (Sent hs) (λ _. Sent hs) wrap_idempotency_error (insert_notification n)
        (λ w i. i)
        (λ w i.
          either (Sent hs) (insert_notification n (tick w)).0 (insert_notification n (tick w)).1
            (keep hs w (insert_notification n (tick w)).1 (ground arith) (ground arith) i))

  insert_all-Steady : (ns : List Notification) → Steady (Sent hs) (insert_all ns)
  unfolding insert_all
  insert_all-Steady [] = record { run = λ w i. i }
  insert_all-Steady (n ∷ ns) = then_do (insert_notification-Steady n) (λ _. insert_all-Steady ns)

  begin-Steady : Steady (Sent hs) (run to_error (λ v. (rows tt, v)))
  begin-Steady =
      run-Hoare (Sent hs) (Sent hs) (λ _. Sent hs) to_error (λ v. (rows tt, v)) (λ w i. i)
        (λ w i. i)

  insert_batch-Steady : (b : NotificationBatch) → Steady (Sent hs) (run to_error (insert_batch b))
  unfolding insert_batch
  insert_batch-Steady b =
      run-Hoare (Sent hs) (Sent hs) (λ _. Sent hs) to_error (insert_batch b) (λ w i. i)
        (λ w i.
          either (Sent hs) (insert_batch b (tick w)).0 (insert_batch b (tick w)).1
            (keep hs w (insert_batch b (tick w)).1 (ground arith) (ground arith) i))

  -- A rollback takes back no message, and none was sent.
  settled :
      {A : Type 0} (w : World) (r : Result A) (v : World)
      → After (λ _. Sent hs) (Sent hs) r v
      → After (λ _. Sent hs) (Sent hs) (settle w r v).0 (settle w r v).1
  settled w (ok a) v h = h
  settled w (err e) v h = h

  store-Steady :
      (b : NotificationBatch) (ns : List Notification)
      → Steady (Sent hs) (Notifications.create_batch b ns)
  unfolding Notifications.create_batch transaction
  store-Steady b ns = record {
    run = λ w i. settled w _ _ (
        (then_do begin-Steady (λ _.
            then_do (then_do (insert_batch-Steady b) (λ _. insert_all-Steady ns))
              (λ _. then_do begin-Steady (λ _. record { run = λ w i. i })))).run
          w i);
  }

-- What was published when the result is this.
abbrev pub HasAnnounced :
    ⦃p : Platform⦄ → World → Result (NotificationBatch × List Notification) → World → Type 0
HasAnnounced w (ok (batch, ns)) v = heads v ≡ heads w ++ announced ns
HasAnnounced w (err e) v = heads v ≡ heads w

module _ ⦃p : Platform⦄ (healthy : IsHealthy p) where
  publishing :
      (hs : List (String × String)) (ns : List Notification) (b : NotificationBatch)
      → Hoare
          (Sent hs)
          (do publish_all ns; pure {A = NotificationBatch × List Notification} (b, ns))
          (λ r v. heads v ≡ hs ++ announced r.1)
          (Sent hs)
  publishing hs ns b = record {
    run = λ w i.
        let (done, sent) = publish_all-announces healthy ns w in
        let rest : Result (Unit {0}) → Result (NotificationBatch × List Notification) × World =
          λ r. continue r (λ _. pure (b, ns)) (publish_all ns w).1 in
        subst (λ r. After (λ r v. heads v ≡ hs ++ announced r.1) (Sent hs) (rest r).0 (rest r).1)
          (sym done) (sent ∙ ap (λ t. t ++ announced ns) i);
  }

  create_batch-Hoare_announced :
      (inputs : List CreateNotificationInput) (hs : List (String × String))
      → Hoare (Sent hs) (create_batch inputs) (λ r v. heads v ≡ hs ++ announced r.1) (Sent hs)
  unfolding create_batch
  create_batch-Hoare_announced inputs hs =
      guarded (length inputs == 0) (plain batch_empty) _ (λ v i. i)
        (λ some_input.
          guarded (ltb 1000 (length inputs)) (plain batch_too_large) _ (λ v i. i)
            (λ few. then_do (uuid-Steady (Sent hs) (keep hs)) (λ batch_id.
              then_do (now-Steady (Sent hs) (keep hs)) (λ now.
                then_do (build_all-Steady hs batch_id inputs)
                  (λ ns. then_do (store-Steady hs _ ns) (λ _. publishing hs ns _))))))

  outcome :
      (w : World) (r : Result (NotificationBatch × List Notification)) (v : World)
      → After (λ r v. heads v ≡ heads w ++ announced r.1) (Sent (heads w)) r v
      → HasAnnounced w r v
  outcome w (ok (batch, ns)) v h = h
  outcome w (err e) v h = h

  -- With a store and a broker that do not fail, a CreateBatch that succeeds publishes one message for each of
  -- its notifications that is not scheduled, on the topic of its priority, with its identifier for a
  -- key, in their order; one that fails publishes nothing.
  pub create_batch-HasAnnounced :
      (inputs : List CreateNotificationInput) (w : World)
      → HasAnnounced w (create_batch inputs w).0 (create_batch inputs w).1
  create_batch-HasAnnounced inputs w =
      outcome w (create_batch inputs w).0 (create_batch inputs w).1
        ((create_batch-Hoare_announced inputs (heads w)).run w refl)
