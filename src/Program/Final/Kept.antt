-- ===== src/Program/Final/Kept.antt =====
-- cmd/api and cmd/worker: runs of the two processes, and the notifications whose status is final.
use mathlib.Core.Option
use event_driven_ns.Prelude.{
  ◌≢◌, Bool, true, false, List, [], ◌∷◌, some, ◌≡◌, ap, arith, All, Option, length, ltb, ◌==◌,
  ==_iff, if◌then◌else◌, Bool-cases, inl, inr,
}
use event_driven_ns.Domain.Error.{Error, plain, batch_empty, batch_too_large}
use event_driven_ns.Domain.Status.{Status}
use event_driven_ns.Domain.Notification.{Uuid, Notification}
use event_driven_ns.Platform.{Platform}
use event_driven_ns.World.{World, M, raise}
use event_driven_ns.World.Triple.{
  OnOk-Any, Any, Triple, bind, attempt-Triple, pure-Triple, raise-Triple, lift-Triple,
}
use event_driven_ns.Postgres.Table.{find_row, has_row}
use event_driven_ns.Postgres.Driver.{run, query}
use event_driven_ns.Postgres.Healthy.{stored}
use event_driven_ns.Postgres.Notifications.{increment_batch_counter}
use event_driven_ns.Postgres.Templates
use event_driven_ns.Postgres.Templates.{insert_template}
use event_driven_ns.App.NotificationService
use event_driven_ns.App.NotificationService.{
  CreateNotificationInput, build_all, publish_all, count_cancelled,
}
use event_driven_ns.App.DeliveryService.{is_settled}
use event_driven_ns.App.TemplateService
use event_driven_ns.App.TemplateService.{CreateTemplateInput}
use event_driven_ns.Program.Reachable.{
  Step, created, batch_created, cancel_requested, template_created, consumed, scheduler_ran,
}
use event_driven_ns.Program.Final.Store.{
  IsFinalRow, HasFinal, elsewhere, get_by_id-Final, create_batch-Final,
}
use event_driven_ns.Program.Final.Statements.{Statement, IsLeft, Statement-IsLeft}
use event_driven_ns.Program.Final.Selected.{cancel-Final}
use event_driven_ns.Program.Final.Delivery.{now-Final, consume-Final}
use event_driven_ns.Program.Final.Requests.{
  uuid-Final, content_of-Final, build-Final, publish-Final, round-Final, service_create-Final,
}

module _ ⦃p : Platform⦄ (id : Uuid) (s : Status) (final : is_settled s ≡ true) where
  build_all-Final :
      (batch_id : Uuid) (inputs : List CreateNotificationInput)
      → Triple (HasFinal id s) (build_all batch_id inputs) Any
  unfolding build_all
  build_all-Final batch_id [] = pure-Triple [] tt
  build_all-Final batch_id (input ∷ inputs) = bind (content_of-Final id s final input) (λ content _.
      bind (build-Final id s final input (some batch_id) content)
        (λ n _. bind (build_all-Final batch_id inputs) (λ ns _. pure-Triple (n ∷ ns) tt)))

  publish_all-Final : (ns : List Notification) → Triple (HasFinal id s) (publish_all ns) Any
  unfolding publish_all
  publish_all-Final [] = pure-Triple tt tt
  publish_all-Final (n ∷ ns) =
      bind (attempt-Triple (publish-Final id s final n)) (λ _ _. publish_all-Final ns)

  guarded-Final :
      {A : Type 0} (b : Bool) (e : Error) (m : M A)
      → Triple (HasFinal id s) m Any
      → Triple (HasFinal id s) (if b then raise e else m) Any
  guarded-Final true e m t = raise-Triple e
  guarded-Final false e m t = t

  service_batch-Final :
      (inputs : List CreateNotificationInput)
      → Triple (HasFinal id s) (NotificationService.create_batch inputs) Any
  unfolding NotificationService.create_batch
  service_batch-Final inputs = guarded-Final (length inputs == 0) (plain batch_empty) _ (
      guarded-Final (ltb 1000 (length inputs)) (plain batch_too_large) _ (
        bind (uuid-Final id s final) (λ batch_id _. bind (now-Final id s) (λ now _.
          bind (build_all-Final batch_id inputs) (λ ns _.
            bind (create_batch-Final id s _ ns)
              (λ _ _. bind (publish_all-Final ns) (λ _ _. pure-Triple _ tt)))))))

  count_cancelled-Final : (o : Option Uuid) → Triple (HasFinal id s) (count_cancelled o) Any
  unfolding count_cancelled increment_batch_counter
  count_cancelled-Final o = elsewhere id s (count_cancelled o) (λ w. ground arith)

  service_cancel-Final : (i : Uuid) → Triple (HasFinal id s) (NotificationService.cancel i) Any
  unfolding NotificationService.cancel
  service_cancel-Final i = bind (get_by_id-Final id s i) (λ n _. bind (now-Final id s) (λ now _.
      bind (lift-Triple {P = Any} _ (OnOk-Any _))
        (λ _ _. bind (cancel-Final id s final i) (λ _ _. count_cancelled-Final n.batch_id))))

  service_template-Final :
      (input : CreateTemplateInput) → Triple (HasFinal id s) (TemplateService.create input) Any
  unfolding TemplateService.create Templates.create insert_template run query
  service_template-Final input = bind (now-Final id s) (λ now _.
      bind (uuid-Final id s final) (λ i _. bind (lift-Triple {P = Any} _ (OnOk-Any _)) (λ t _.
        bind (elsewhere id s (Templates.create t) (λ w. ground arith)) (λ _ _. pure-Triple t tt))))

Step-HasFinal :
    (id : Uuid) (s : Status) (w v : World)
    → is_settled s ≡ true
    → Step w v
    → HasFinal id s w
    → HasFinal id s v
Step-HasFinal id s w v f (created p input) i =
    ((service_create-Final ⦃p = p⦄ id s f input).keeps w i).0
Step-HasFinal id s w v f (batch_created p inputs) i =
    ((service_batch-Final ⦃p = p⦄ id s f inputs).keeps w i).0
Step-HasFinal id s w v f (cancel_requested p j) i =
    ((service_cancel-Final ⦃p = p⦄ id s f j).keeps w i).0
Step-HasFinal id s w v f (template_created p input) i =
    ((service_template-Final ⦃p = p⦄ id s f input).keeps w i).0
Step-HasFinal id s w v f (consumed p topic) i = consume-Final ⦃p = p⦄ id s f topic w i
Step-HasFinal id s w v f (scheduler_ran p) i = ((round-Final ⦃p = p⦄ id s f).keeps w i).0

-- A run of the two processes: whole operations, and the statements of operations that interleave.
pub data Run (w : World) (held : List Uuid) : World → List Uuid → Type 0 where
  over : Run w held w held
  whole : (u v : World) (taken : List Uuid) → Run w held u taken → Step u v → Run w held v taken
  statement :
      (u v : World) (taken later : List Uuid)
      → Run w held u taken
      → Statement u taken v later
      → Run w held v later

-- The row that is found has the status of all.
status_of :
    (id : Uuid) (s : Status) (ns : List Notification)
    → All (IsFinalRow id s) ns
    → has_row (λ r. r.id == id) ns ≡ true
    → Option.map (λ r. r.status) (find_row (λ r. r.id == id) ns) ≡ some s
unfolding find_row has_row
status_of id s [] h there = cc
status_of id s (r ∷ ns) (c, h) there = elim (Bool-cases (r.id == id)) [
  | inl own ↦ rw own (ap some (c ((==_iff r.id id).0 own)))
  | inr other ↦
      let rest : has_row (λ t. t.id == id) ns ≡ true = ground arith in
      rw other (status_of id s ns h rest)
]

-- A notification that is cancelled or delivered, in every row of its identifier, while no operation
-- under way has read it before, is there and has the same status ever after: whatever operations follow,
-- and however the statements of the deliveries, the cancellations, the rounds of the scheduler and the
-- creations among them interleave, whatever fails on the way.
pub Run-HasFinal :
    (id : Uuid) (s : Status) (w v : World) (held later : List Uuid)
    → is_settled s ≡ true
    → All (λ r. r.id ≡ id → r.status ≡ s) w.notifications
      × (has_row (λ r. r.id == id) w.notifications ≡ true)
    → All (λ i. i ≢ id) held
    → Run w held v later
    → Option.map (λ r. r.status) (stored v id) ≡ some s
unfolding stored
Run-HasFinal id s w v held later f i apart run_to =
    let ((all, there), _) = kept v later run_to in status_of id s v.notifications all there
  where
    kept : (v : World) (taken : List Uuid) → Run w held v taken → IsLeft id s f v taken
    kept _ _ over = (i, apart)
    kept _ _ (whole u v taken before step) =
        let (h, k) = kept u taken before in (Step-HasFinal id s u v f step h, k)
    kept _ _ (statement u v taken later before step) =
        Statement-IsLeft id s f u v taken later step (kept u taken before)
