-- ===== src/Tests/Requests.antt =====
-- Requests of clients on small worlds.
use mathlib.Core.Option
use event_driven_ns.Prelude.{
  List, ℕ, [], ◌∷◌, none, some, ◌≡◌, refl, All, ◌&&◌, ◌==◌, if◌then◌else◌,
}
use event_driven_ns.Domain.Error.{ok, err}
use event_driven_ns.Domain.Channel.{push}
use event_driven_ns.Domain.Priority.{high}
use event_driven_ns.Domain.Notification.{cancellable}
use event_driven_ns.World.{World}
use event_driven_ns.Postgres.Rows.{has_id}
use event_driven_ns.Postgres.Healthy.{stored}
use event_driven_ns.Postgres.Cancel.{cancelled_at}
use event_driven_ns.App.NotificationService.{CreateNotificationInput, create, create_batch, cancel}
use event_driven_ns.App.NotificationService.Cancel.{
  IsSameBeside, stored_batch, cancelled_one, refusal, cancel-outcome,
}
use event_driven_ns.App.NotificationService.Announced.{HasAnnounced, create_batch-HasAnnounced}
use event_driven_ns.App.NotificationService.Batch.{BatchOutcome, create_batch-atomic}
use event_driven_ns.Program.Sound.{IsConsistent, IsBalanced}
use event_driven_ns.Program.Reachable.{started, stepped, created, batch_created, Reachable-IsSound}
use event_driven_ns.Tests.Fixtures.{platform, platform-IsHealthy, waiting, queued}

abbrev empty : World
empty = record {
  step = 0;
  notifications = [];
  batches = [];
  templates = [];
  keys = [];
  messages = [];
  updates = [];
  requests = [];
  calls = [];
}

abbrev greeting : CreateNotificationInput
greeting = record {
  channel = push;
  recipient = "token";
  content = "hello";
  priority = high;
  scheduled_at = none;
  idempotency_key = some "k";
  template_id = none;
  template_variables = [];
}

-- One notification, and then a batch of two.
abbrev after_create : World
after_create = (create ⦃p = platform 200 none⦄ greeting empty).1

abbrev pair : List CreateNotificationInput
pair =
    record greeting { idempotency_key = none }
    ∷ record greeting { idempotency_key = none; scheduled_at = some 70 }
    ∷ []

abbrev after_batch : World
after_batch = (create_batch ⦃p = platform 200 none⦄ pair after_create).1

Reachable-IsSound_example :
    All IsConsistent after_batch.notifications × All IsBalanced after_batch.batches
Reachable-IsSound_example = Reachable-IsSound after_batch (
    stepped after_create after_batch
      (stepped empty after_create (started empty refl refl) (created (platform 200 none) greeting))
      (batch_created (platform 200 none) pair))

create_batch-atomic_example :
    BatchOutcome pair after_create
      (create_batch ⦃p = platform 200 none⦄ pair after_create).0
      (create_batch ⦃p = platform 200 none⦄ pair after_create).1
create_batch-atomic_example = create_batch-atomic ⦃p = platform 200 none⦄ pair after_create

create_batch-HasAnnounced_example :
    HasAnnounced ⦃p = platform 200 none⦄ after_create
      (create_batch ⦃p = platform 200 none⦄ pair after_create).0
      (create_batch ⦃p = platform 200 none⦄ pair after_create).1
create_batch-HasAnnounced_example =
    create_batch-HasAnnounced ⦃p = platform 200 none⦄ (platform-IsHealthy 200 none) pair
      after_create

waiting_row : stored queued 3 ≡ some waiting
unfolding stored
waiting_row = refl

cancel-outcome_example :
    ((cancel ⦃p = platform 200 none⦄ 3 queued).0
      ≡ (if cancellable waiting.status then ok tt else err (refusal waiting)))
    × ((j : ℕ)
        → stored (cancel ⦃p = platform 200 none⦄ 3 queued).1 j ≡ (
            if cancellable waiting.status && (3 == j)
            then some (cancelled_at 2 waiting)
            else stored queued j))
    × ((b : ℕ)
        → stored_batch (cancel ⦃p = platform 200 none⦄ 3 queued).1 b ≡ (
            if cancellable waiting.status && has_id waiting.batch_id b
            then Option.map cancelled_one (stored_batch queued b)
            else stored_batch queued b))
    × IsSameBeside queued (cancel ⦃p = platform 200 none⦄ 3 queued).1
cancel-outcome_example =
    cancel-outcome ⦃p = platform 200 none⦄ (platform-IsHealthy 200 none) queued 3 waiting
      waiting_row
