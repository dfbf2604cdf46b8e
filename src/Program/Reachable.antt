-- ===== src/Program/Reachable.antt =====
-- The states that the two processes can reach, and what is true of all of them.
use event_driven_ns.Prelude.{[], List, String, ◌≡◌, All}
use event_driven_ns.Domain.Notification.{Uuid}
use event_driven_ns.Platform.{Platform}
use event_driven_ns.World.{World}
use event_driven_ns.App.NotificationService
use event_driven_ns.App.NotificationService.{CreateNotificationInput}
use event_driven_ns.App.DeliveryService.{process_delivery}
use event_driven_ns.App.Scheduler
use event_driven_ns.App.TemplateService
use event_driven_ns.App.TemplateService.{CreateTemplateInput}
use event_driven_ns.Queue.Consumer.{consume}
use event_driven_ns.Program.Sound.{IsConsistent, IsBalanced, IsSound}
use event_driven_ns.Program.Delivery.{consume-IsSound}
use event_driven_ns.Program.Requests.{service_create-Triple, round-Triple}
use event_driven_ns.Program.Batches.{
  service_batch-Triple, service_cancel-Triple, service_template-Triple,
}

-- A request to the API, a round of a consumer, or a tick of the scheduler. The platform may answer
-- anything at each step: statements fail, the provider refuses, the clock stands.
pub data Step (w : World) : World → Type 0 where
  created :
      (p : Platform) (input : CreateNotificationInput)
      → Step w (NotificationService.create ⦃p = p⦄ input w).1
  batch_created :
      (p : Platform) (inputs : List CreateNotificationInput)
      → Step w (NotificationService.create_batch ⦃p = p⦄ inputs w).1
  cancel_requested : (p : Platform) (id : Uuid) → Step w (NotificationService.cancel ⦃p = p⦄ id w).1
  template_created :
      (p : Platform) (input : CreateTemplateInput)
      → Step w (TemplateService.create ⦃p = p⦄ input w).1
  consumed :
      (p : Platform) (topic : String) → Step w (consume ⦃p = p⦄ (process_delivery ⦃p = p⦄) topic w)
  scheduler_ran : (p : Platform) → Step w (Scheduler.round ⦃p = p⦄ w).1

-- From empty tables, whatever waits in Kafka.
pub data Reachable : World → Type 0 where
  started : (w : World) → w.notifications ≡ [] → w.batches ≡ [] → Reachable w
  stepped : (w v : World) → Reachable w → Step w v → Reachable v

Step-IsSound : (w v : World) → Step w v → IsSound w → IsSound v
Step-IsSound w v (created p input) i = ((service_create-Triple ⦃p = p⦄ input).keeps w i).0
Step-IsSound w v (batch_created p inputs) i = ((service_batch-Triple ⦃p = p⦄ inputs).keeps w i).0
Step-IsSound w v (cancel_requested p id) i = ((service_cancel-Triple ⦃p = p⦄ id).keeps w i).0
Step-IsSound w v (template_created p input) i =
    ((service_template-Triple ⦃p = p⦄ input).keeps w i).0
Step-IsSound w v (consumed p topic) i = consume-IsSound ⦃p = p⦄ topic w i
Step-IsSound w v (scheduler_ran p) i = ((round-Triple ⦃p = p⦄).keeps w i).0

-- In every state that the program reaches, whatever fails on the way, each stored notification is
-- one that NewNotification accepts, has the number of retries of its priority, and has the dates and
-- texts that its status calls for; and the four counters of each batch add up to its size.
pub Reachable-IsSound :
    (w : World) → Reachable w → All IsConsistent w.notifications × All IsBalanced w.batches
Reachable-IsSound w (started _ e f) = (rw e tt, rw f tt)
Reachable-IsSound w (stepped u _ r s) = Step-IsSound u w s (Reachable-IsSound u r)
