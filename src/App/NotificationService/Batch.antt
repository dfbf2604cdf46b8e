-- ===== src/App/NotificationService/Batch.antt =====
-- `CreateBatch` of internal/app/notification_service.go as a whole.
use mathlib.Core.Path.{subst}
use event_driven_ns.Prelude.{
  ℕ, Bool, true, false, List, [], ◌∷◌, ◌++◌, map, length, Option, none, some, String, ◌≡◌, refl,
  sym, ap, ◌≤◌, arith, ◌==◌, ltb, if◌then◌else◌,
}
use event_driven_ns.Prelude.Int.{pos}
use event_driven_ns.Domain.Error.{Error, Result, ok, err, plain, batch_empty, batch_too_large}
use event_driven_ns.Domain.Notification.{Uuid, Time, Notification, new_notification}
use event_driven_ns.Domain.Template.{render}
use event_driven_ns.Platform.{Platform}
use event_driven_ns.World.{
  continue, World, M, NotificationBatch, pure, raise, lift, ◌>>=◌, ◌>>◌, time_now, new_uuid,
}
use event_driven_ns.World.Hoare.{After, Hoare, then_do, Steady, Steady-intro, frame, consequence}
use event_driven_ns.Postgres.Driver.{run, query}
use event_driven_ns.Postgres.Rows.{inserted, row_of_batch}
use event_driven_ns.Postgres.Templates
use event_driven_ns.Postgres.Templates.{select_template}
use event_driven_ns.Postgres.Atomic.{Unchanged, create_batch-Hoare}
use event_driven_ns.Queue.Publisher.{enqueue, enqueue_scheduled, write_message}
use event_driven_ns.App.NotificationService.{
  CreateNotificationInput, content_of, build, build_all, publish, publish_all, create_batch,
}

-- The notifications and batches are these.
abbrev Tables : List Notification → List NotificationBatch → World → Type 0
Tables ns bs w = (w.notifications ≡ ns) × (w.batches ≡ bs)

module _ ⦃p : Platform⦄ (rs : List Notification) (bs : List NotificationBatch) where
  abbrev Kept : World → Type 0
  Kept w = Tables rs bs w

  template_lookup-Steady : (id : Uuid) → Steady Kept (Templates.get_by_id id)
  unfolding Templates.get_by_id select_template run query
  template_lookup-Steady id =
      Steady-intro (Templates.get_by_id id) (λ w (h, k). (ground arith, ground arith))

  content_at :
      (o : Option Uuid) (input : CreateNotificationInput)
      → Steady Kept (elim o [
        | none ↦ pure input.content
        | some id ↦ do tmpl ← Templates.get_by_id id; lift (render tmpl input.template_variables)
      ])
  content_at none input = Steady-intro (pure input.content) (λ w i. i)
  content_at (some id) input =
      then_do (template_lookup-Steady id)
        (λ t. Steady-intro (lift (render t input.template_variables)) (λ w i. i))

  content_of-Steady : (input : CreateNotificationInput) → Steady Kept (content_of input)
  unfolding content_of
  content_of-Steady input = content_at input.template_id input

  now-Steady : Steady Kept time_now
  unfolding time_now
  now-Steady = Steady-intro time_now (λ w i. i)

  uuid-Steady : Steady Kept new_uuid
  unfolding new_uuid
  uuid-Steady = Steady-intro new_uuid (λ w i. i)

  build-Steady :
      (input : CreateNotificationInput) (batch_id : Option Uuid) (content : String)
      → Steady Kept (build input batch_id content)
  unfolding build
  build-Steady input batch_id content = then_do now-Steady (λ now. then_do uuid-Steady (λ id.
      then_do
        (Steady-intro
          (lift (
            new_notification id now input.channel input.recipient content input.priority
              input.scheduled_at))
          (λ w i. i))
        (λ n. Steady-intro (pure _) (λ w i. i))))

  build_all-Hoare :
      (batch_id : Uuid) (inputs : List CreateNotificationInput)
      → Hoare Kept (build_all batch_id inputs) (λ ns w. Kept w × (length ns ≡ length inputs)) Kept
  unfolding build_all
  build_all-Hoare batch_id [] = record { run = λ w i. (i, refl) }
  build_all-Hoare batch_id (input ∷ inputs) = then_do (content_of-Steady input) (λ content.
      then_do (build-Steady input (some batch_id) content) (λ n.
        then_do (build_all-Hoare batch_id inputs)
          (λ ns. record { run = λ w i. (i.0, ap ℕ.suc i.1) })))

  enqueue-Steady : (n : Notification) → Steady Kept (enqueue n)
  unfolding enqueue write_message
  enqueue-Steady n = Steady-intro (enqueue n) (λ w (h, k). (ground arith, ground arith))

  publish_at :
      (o : Option Time) (n : Notification)
      → Steady Kept (elim o [ some t ↦ enqueue_scheduled n | none ↦ enqueue n ])
  unfolding enqueue_scheduled
  publish_at none n = enqueue-Steady n
  publish_at (some t) n = Steady-intro (pure tt) (λ w i. i)

  publish-Steady : (n : Notification) → Steady Kept (publish n)
  unfolding publish
  publish-Steady n = publish_at n.scheduled_at n

  publish_all-ok :
      (ns : List Notification) (w : World)
      → Kept w
      → ((publish_all ns w).0 ≡ ok tt) × Kept (publish_all ns w).1
  unfolding publish_all
  publish_all-ok [] w i = (refl, i)
  publish_all-ok (n ∷ ns) w i = publish_all-ok ns _ (joined _ _ ((publish-Steady n).run w i))
    where
      joined : (r : Result Unit) (v : World) → After (λ _. Kept) Kept r v → Kept v
      joined (ok a) v h = h
      joined (err e) v h = h

-- What a batch of inputs may come to: everything is stored, or nothing.
abbrev pub BatchOutcome :
    List CreateNotificationInput
    → World
    → Result (NotificationBatch × List Notification)
    → World
    → Type 0
BatchOutcome inputs w (ok (batch, ns)) v =
    (v.notifications ≡ w.notifications ++ map inserted ns)
    × (v.batches ≡ w.batches ++ row_of_batch batch ∷ [])
    × (length ns ≡ length inputs)
    × (batch.total_count ≡ pos (length inputs))
    × (1 ≤ length inputs)
    × (length inputs ≤ 1000)
BatchOutcome inputs w (err e) v = (v.notifications ≡ w.notifications) × (v.batches ≡ w.batches)

abbrev Success :
    List CreateNotificationInput → World → NotificationBatch × List Notification → World → Type 0
Success inputs w r v = BatchOutcome inputs w (ok r) v

outcome :
    (inputs : List CreateNotificationInput) (w : World)
    (r : Result (NotificationBatch × List Notification)) (v : World)
    → After (Success inputs w) (Unchanged w) r v
    → BatchOutcome inputs w r v
outcome inputs w (ok (b, ns)) v h = h
outcome inputs w (err e) v h = h

pub guarded :
    {A : Type 0} {I E : World → Type 0} {Q : A → World → Type 0} (b : Bool) (e : Error) (m : M A)
    → ((w : World) → I w → E w)
    → (b ≡ false → Hoare I m Q E)
    → Hoare I (if b then raise e else m) Q E
guarded true e m down t = record { run = λ w i. down w i }
guarded false e m down t = t refl

module _ ⦃p : Platform⦄ where
  publishing :
      (ns : List Notification) (b : NotificationBatch) (rs : List Notification)
      (bs : List NotificationBatch) (E : World → Type 0)
      → Hoare
          (Tables rs bs)
          (do publish_all ns; pure {A = NotificationBatch × List Notification} (b, ns))
          (λ r w. Tables rs bs w × (r ≡ (b, ns)))
          E
  publishing ns b rs bs E = record {
    run = λ w i.
        let (e, k) = publish_all-ok rs bs ns w i in
        let rest : Result (Unit {0}) → Result (NotificationBatch × List Notification) × World =
          λ r. continue r (λ _. pure (b, ns)) (publish_all ns w).1 in
        subst (λ r. After (λ x v. Tables rs bs v × (x ≡ (b, ns))) E (rest r).0 (rest r).1) (sym e)
          (k, refl);
  }

  -- The record that `CreateBatch` builds.
  new_batch : Uuid → Time → ℕ → NotificationBatch
  new_batch batch_id now size = record {
    id = batch_id;
    total_count = pos size;
    pending_count = pos size;
    delivered_count = pos 0;
    failed_count = pos 0;
    cancelled_count = pos 0;
    created_at = now;
  }

  create_batch-Hoare_service :
      (inputs : List CreateNotificationInput) (w : World)
      → Hoare (Unchanged w) (create_batch inputs) (Success inputs w) (Unchanged w)
  unfolding create_batch new_batch
  create_batch-Hoare_service inputs w =
      guarded (length inputs == 0) (plain batch_empty) _ (λ v i. i)
        (λ some_input.
          guarded (ltb 1000 (length inputs)) (plain batch_too_large) _ (λ v i. i)
            (λ few. then_do (uuid-Steady w.notifications w.batches) (λ batch_id.
              then_do (now-Steady w.notifications w.batches) (λ now.
                let b = new_batch batch_id now (length inputs) in
                let bs = w.batches ++ row_of_batch b ∷ [] in
                then_do (build_all-Hoare w.notifications w.batches batch_id inputs) (λ ns.
                  let rs = w.notifications ++ map inserted ns in
                  then_do (frame (length ns ≡ length inputs) (create_batch-Hoare w b ns)) (λ _.
                    consequence (Success inputs w)
                      (λ r v ((k, e), l).
                        subst (λ x. Success inputs w x v) (sym e)
                          (k.0, k.1, l, refl, ground arith, ground arith))
                      (frame (length ns ≡ length inputs)
                        (publishing ns b rs bs (Unchanged w)))))))))

  -- `CreateBatch` stores a batch of 1 to 1000 notifications and the rows of those that it returns, as
  -- many as the inputs, or it returns an error and stores nothing; whatever fails on the way.
  pub create_batch-atomic :
      (inputs : List CreateNotificationInput) (w : World)
      → BatchOutcome inputs w (create_batch inputs w).0 (create_batch inputs w).1
  create_batch-atomic inputs w =
      outcome inputs w (create_batch inputs w).0 (create_batch inputs w).1
        ((create_batch-Hoare_service inputs w).run w (refl, refl))
