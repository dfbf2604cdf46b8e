-- ===== src/App/NotificationService.antt =====
-- internal/app/notification_service.go.
pub mod Cancel
pub mod Announcement
pub mod Announced
pub mod Batch
pub mod Repeat
pub mod Steady
pub mod Clock
pub mod KeyRows
pub mod FirstCreate
pub mod Ready
pub mod Published
pub mod Expired
use event_driven_ns.Prelude.{
  Bool, true, false, List, [], ◌∷◌, Option, none, some, String, length, ltb, ◌==◌, if◌then◌else◌,
}
use event_driven_ns.Prelude.Int.{pos}
use event_driven_ns.Domain.Error.{plain, Result, ok, err, batch_empty, batch_too_large}
use event_driven_ns.Domain.Channel.{Channel}
use event_driven_ns.Domain.Priority.{Priority}
use event_driven_ns.Domain.Status.{cancelled}
use event_driven_ns.Domain.Notification
use event_driven_ns.Domain.Notification.{Uuid, Time, Variables, Notification, new_notification}
use event_driven_ns.Domain.Template.{render}
use event_driven_ns.Platform.{Platform}
use event_driven_ns.World.{
  M, NotificationBatch, ◌>>=◌, ◌>>◌, pure, raise, lift, attempt, time_now, new_uuid,
}
use event_driven_ns.Postgres.Notifications
use event_driven_ns.Postgres.Notifications.{NotificationFilter}
use event_driven_ns.Postgres.Idempotency
use event_driven_ns.Postgres.Templates
use event_driven_ns.Queue.Publisher.{enqueue, enqueue_scheduled}

pub record CreateNotificationInput : Type 0 where
  pub channel : Channel
  pub recipient : String
  pub content : String
  pub priority : Priority
  pub scheduled_at : Option Time
  pub idempotency_key : Option String
  pub template_id : Option Uuid
  pub template_variables : Variables

-- What `Check` gave, an error of it being only logged: the text of the identifier, if any.
abbrev pub hit : Result (Bool × String) → Option String
hit (ok (true, id)) = some id
hit (ok (false, id)) = none
hit (err e) = none

module _ ⦃p : Platform⦄ where
  -- The identifier that an earlier request with this key left.
  unfoldable pub existing_id : Option String → M (Option String)
  existing_id none w = (ok none, w)
  existing_id (some key) w = let (r, w') = Idempotency.check key w in (ok (hit r), w')

  -- The content, rendered if the input names a template.
  unfoldable pub content_of : CreateNotificationInput → M String
  content_of input = elim input.template_id [
    | none ↦ pure input.content
    | some id ↦ do tmpl ← Templates.get_by_id id; lift (render tmpl input.template_variables)
  ]

  -- `domain.NewNotification` on the input, with the fields that the service sets after it. The clock
  -- and the generator are read before the validation here, which nothing observes.
  unfoldable pub build : CreateNotificationInput → Option Uuid → String → M Notification
  build input batch_id content = do
    now ← time_now
    id ← new_uuid
    n ← lift (
        new_notification id now input.channel input.recipient content input.priority
          input.scheduled_at)
    pure (record n {
      batch_id = batch_id;
      idempotency_key = input.idempotency_key;
      template_id = input.template_id;
      template_variables = input.template_variables;
    })

  -- An error of `SetNX` is only logged.
  unfoldable pub remember : Option String → Notification → M Unit
  remember none n = pure tt
  remember (some key) n = do attempt (Idempotency.set_nx key (p.uuid_string n.id)); pure tt

  unfoldable pub publish : Notification → M Unit
  publish n = elim n.scheduled_at [ some t ↦ enqueue_scheduled n | none ↦ enqueue n ]

  -- `Create` for a key that is new, or for no key.
  unfoldable pub create_new : CreateNotificationInput → M Notification
  create_new input = do
    content ← content_of input
    n ← build input none content
    Notifications.create n
    remember input.idempotency_key n
    publish n
    pure n

  -- A repeated key gives the notification that it made; a text that is no UUID gives what
  -- `uuid.Parse` leaves in its first result.
  unfoldable pub create : CreateNotificationInput → M Notification
  create input = do
    found ← existing_id input.idempotency_key
    elim found [
      | some text ↦ Notifications.get_by_id (p.uuid_parse text).0
      | none ↦ create_new input
    ]

  -- The loop of `CreateBatch` that renders and validates.
  unfoldable pub build_all : Uuid → List CreateNotificationInput → M (List Notification)
  build_all batch_id [] = pure []
  build_all batch_id (input ∷ inputs) = do
    content ← content_of input
    n ← build input (some batch_id) content
    ns ← build_all batch_id inputs
    pure (n ∷ ns)

  -- The loop that publishes: its errors are dropped.
  unfoldable pub publish_all : List Notification → M Unit
  publish_all [] = pure tt
  publish_all (n ∷ ns) = do attempt (publish n); publish_all ns

  unfoldable pub create_batch :
      List CreateNotificationInput → M (NotificationBatch × List Notification)
  create_batch inputs =
      if length inputs == 0
      then raise (plain batch_empty)
      else if ltb 1000 (length inputs)
      then raise (plain batch_too_large)
      else do
        batch_id ← new_uuid
        now ← time_now
        let batch : NotificationBatch = record {
          id = batch_id;
          total_count = pos (length inputs);
          pending_count = pos (length inputs);
          delivered_count = pos 0;
          failed_count = pos 0;
          cancelled_count = pos 0;
          created_at = now;
        }
        ns ← build_all batch_id inputs
        Notifications.create_batch batch ns
        publish_all ns
        pure (batch, ns)

  unfoldable pub get_by_id : Uuid → M Notification
  get_by_id id = Notifications.get_by_id id

  unfoldable pub get_batch : Uuid → M NotificationBatch
  get_batch id = Notifications.get_batch_by_id id

  unfoldable pub list : NotificationFilter → M (List Notification)
  list filter = Notifications.list filter

  -- `_ = s.repo.IncrementBatchCounter(…)`, for a notification of a batch.
  unfoldable pub count_cancelled : Option Uuid → M Unit
  count_cancelled none = pure tt
  count_cancelled (some id) = do
    attempt (Notifications.increment_batch_counter id cancelled)
    pure tt

  unfoldable pub cancel : Uuid → M Unit
  cancel id = do
    n ← Notifications.get_by_id id
    now ← time_now
    lift (Notification.cancel now n)
    Notifications.cancel id
    count_cancelled n.batch_id
