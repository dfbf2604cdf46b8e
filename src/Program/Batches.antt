-- ===== src/Program/Batches.antt =====
-- Batches, cancellations and templates keep the tables sound, whatever fails.
use event_driven_ns.Prelude.{
  Bool, true, false, List, [], ◌∷◌, none, some, refl, All, Option, if◌then◌else◌, length, ltb, ◌==◌,
}
use event_driven_ns.Domain.Error.{Error, plain, batch_empty, batch_too_large}
use event_driven_ns.Domain.Status.{cancelled}
use event_driven_ns.Domain.Notification.{Uuid, Notification}
use event_driven_ns.Platform.{Platform}
use event_driven_ns.World.{M, raise}
use event_driven_ns.World.Triple.{
  OnOk-Any, Any, Triple, bind, attempt-Triple, pure-Triple, raise-Triple, lift-Triple,
}
use event_driven_ns.App.NotificationService
use event_driven_ns.App.NotificationService.{
  CreateNotificationInput, existing_id, content_of, build, build_all, remember, publish,
  publish_all, create_new, create, create_batch, cancel, count_cancelled, hit,
}
use event_driven_ns.App.TemplateService
use event_driven_ns.App.TemplateService.{CreateTemplateInput}
use event_driven_ns.Program.Sound.{IsSound}
use event_driven_ns.Program.Store.{
  IsInsertable, get_by_id-Triple, increment_batch_counter-Triple, cancel-Triple,
}
use event_driven_ns.Program.Queries.{
  time_now-Triple, new_uuid-Triple, create_batch-Triple, template_create-Triple,
}
use event_driven_ns.Program.New.{IsNew-IsInsertable}
use event_driven_ns.Program.Requests.{content_of-Triple, build-Triple, publish-Triple}

module _ ⦃p : Platform⦄ where
  build_all-Triple :
      (batch_id : Uuid) (inputs : List CreateNotificationInput)
      → Triple IsSound (build_all batch_id inputs) (All IsInsertable)
  unfolding build_all
  build_all-Triple batch_id [] = pure-Triple [] tt
  build_all-Triple batch_id (input ∷ inputs) = bind (content_of-Triple input) (λ content _.
      bind (build-Triple input (some batch_id) content) (λ n h.
        bind (build_all-Triple batch_id inputs)
          (λ ns hs. pure-Triple (n ∷ ns) (IsNew-IsInsertable n h, hs))))

  publish_all-Triple : (ns : List Notification) → Triple IsSound (publish_all ns) Any
  unfolding publish_all
  publish_all-Triple [] = pure-Triple tt tt
  publish_all-Triple (n ∷ ns) =
      bind (attempt-Triple (publish-Triple n)) (λ _ _. publish_all-Triple ns)

  -- `CreateBatch` after its two guards.
  guarded-Triple :
      {A : Type 0} (b : Bool) (e : Error) (m : M A)
      → Triple IsSound m Any
      → Triple IsSound (if b then raise e else m) Any
  guarded-Triple true e m t = raise-Triple e
  guarded-Triple false e m t = t

  pub service_batch-Triple :
      (inputs : List CreateNotificationInput)
      → Triple IsSound (NotificationService.create_batch inputs) Any
  unfolding NotificationService.create_batch
  service_batch-Triple inputs = guarded-Triple (length inputs == 0) (plain batch_empty) _ (
      guarded-Triple (ltb 1000 (length inputs)) (plain batch_too_large) _ (
        bind new_uuid-Triple (λ batch_id _. bind time_now-Triple (λ now _.
          bind (build_all-Triple batch_id inputs) (λ ns hs.
            bind (create_batch-Triple _ ns refl hs)
              (λ _ _. bind (publish_all-Triple ns) (λ _ _. pure-Triple _ tt)))))))

  count_cancelled-Triple : (o : Option Uuid) → Triple IsSound (count_cancelled o) Any
  unfolding count_cancelled
  count_cancelled-Triple none = pure-Triple tt tt
  count_cancelled-Triple (some id) =
      bind (attempt-Triple (increment_batch_counter-Triple id cancelled)) (λ _ _. pure-Triple tt tt)

  pub service_cancel-Triple : (id : Uuid) → Triple IsSound (NotificationService.cancel id) Any
  unfolding NotificationService.cancel
  service_cancel-Triple id = bind (get_by_id-Triple id) (λ n _. bind time_now-Triple (λ now _.
      bind (lift-Triple {P = Any} _ (OnOk-Any _))
        (λ _ _. bind (cancel-Triple id) (λ _ _. count_cancelled-Triple n.batch_id))))

  pub service_template-Triple :
      (input : CreateTemplateInput) → Triple IsSound (TemplateService.create input) Any
  unfolding TemplateService.create
  service_template-Triple input = bind time_now-Triple (λ now _. bind new_uuid-Triple (λ id _.
      bind (lift-Triple {P = Any} _ (OnOk-Any _))
        (λ t _. bind (template_create-Triple t) (λ _ _. pure-Triple t tt))))
