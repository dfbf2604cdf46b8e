-- ===== src/Postgres/Columns.antt =====
-- The rows of `notifications` as internal/adapter/postgres/notification_repo.go writes and reads them:
-- texts for the types with constants, and JSON for the variables of the template. encoding/json is an
-- argument: what `Marshal` writes, and what `Unmarshal` leaves in an empty map, its error dropped. So
-- is what a column of TIMESTAMPTZ keeps of a time: its whole microseconds, as pgx sends it.
use mathlib.Core.Option
use event_driven_ns.Prelude.{
  ℕ, [], Option, none, some, String, ◌≡◌, refl, arith, is_some, if◌then◌else◌,
}
use event_driven_ns.Domain.Error.{ok}
use event_driven_ns.Domain.Channel
use event_driven_ns.Domain.Channel.{Channel}
use event_driven_ns.Domain.Priority
use event_driven_ns.Domain.Priority.{Priority}
use event_driven_ns.Domain.Status
use event_driven_ns.Domain.Status.{Status, pending, scheduled}
use event_driven_ns.Domain.Notification.{
  Uuid, Time, Variables, Notification, new_notification, priority_max_retries,
}
use mathlib.Core.Path.{subst}
use event_driven_ns.Domain.Validation.{validate_channel, validate_priority}
use event_driven_ns.Domain.Notification.Create.{validated}

-- `notificationRow`.
pub record NotificationRow : Type 0 where
  pub id : Uuid
  pub batch_id : Option Uuid
  pub idempotency_key : Option String
  pub channel : String
  pub recipient : String
  pub content : String
  pub priority : String
  pub status : String
  pub scheduled_at : Option Time
  pub sent_at : Option Time
  pub failed_at : Option Time
  pub error_message : Option String
  pub retry_count : ℕ
  pub max_retries : ℕ
  pub provider_message_id : Option String
  pub template_id : Option Uuid
  pub template_variables : Option String
  pub created_at : Time
  pub updated_at : Time

module _ (marshal : Variables → String) (unmarshal : String → Variables) where
  -- The row that the INSERT of `Create` makes: the columns it does not name are NULL, or 0.
  unfoldable pub insert_columns : (Time → Time) → Notification → NotificationRow
  unfolding Channel.to_string Priority.to_string Status.to_string
  insert_columns kept n = record {
    id = n.id;
    batch_id = n.batch_id;
    idempotency_key = n.idempotency_key;
    channel = Channel.to_string n.channel;
    recipient = n.recipient;
    content = n.content;
    priority = Priority.to_string n.priority;
    status = Status.to_string n.status;
    scheduled_at = Option.map kept n.scheduled_at;
    sent_at = none;
    failed_at = none;
    error_message = none;
    retry_count = 0;
    max_retries = n.max_retries;
    provider_message_id = none;
    template_id = n.template_id;
    template_variables = some (marshal n.template_variables);
    created_at = kept n.created_at;
    updated_at = kept n.updated_at;
  }

  -- `if row.TemplateVariables != nil { _ = json.Unmarshal(…) }`.
  abbrev variables_of : Option String → Variables
  variables_of none = []
  variables_of (some text) = unmarshal text

  unfoldable pub row_to_notification : NotificationRow → Notification
  unfolding Channel.of_string Priority.of_string Status.of_string
  row_to_notification row = record {
    id = row.id;
    batch_id = row.batch_id;
    idempotency_key = row.idempotency_key;
    channel = Channel.of_string row.channel;
    recipient = row.recipient;
    content = row.content;
    priority = Priority.of_string row.priority;
    status = Status.of_string row.status;
    scheduled_at = row.scheduled_at;
    sent_at = row.sent_at;
    failed_at = row.failed_at;
    error_message = row.error_message;
    retry_count = row.retry_count;
    max_retries = row.max_retries;
    provider_message_id = row.provider_message_id;
    template_id = row.template_id;
    template_variables = variables_of row.template_variables;
    created_at = row.created_at;
    updated_at = row.updated_at;
  }

-- The constants of the three types are read as they are written.
channel_kept :
    (c : Channel) → validate_channel c ≡ none → Channel.of_string (Channel.to_string c) ≡ c
unfolding validate_channel Channel.of_string Channel.to_string
channel_kept (Channel.other s) h = cc
channel_kept _ h = refl

priority_kept :
    (p : Priority) → validate_priority p ≡ none → Priority.of_string (Priority.to_string p) ≡ p
unfolding validate_priority Priority.of_string Priority.to_string
priority_kept (Priority.other s) h = cc
priority_kept _ h = refl

first_status_kept :
    (at : Option Time)
    → let s : Status = if is_some at then scheduled else pending in
      Status.of_string (Status.to_string s) ≡ s
unfolding Status.of_string Status.to_string
first_status_kept none = refl
first_status_kept (some t) = refl

-- What the service fills in after NewNotification.
unfoldable pub filled :
    Option Uuid → Option String → Option Uuid → Variables → Notification → Notification
filled batch_id key template_id variables n = record n {
  batch_id = batch_id;
  idempotency_key = key;
  template_id = template_id;
  template_variables = variables;
}

module _ (id : Uuid) (now : Time) (channel : Channel) (recipient content : String)
    (priority : Priority) (scheduled_at : Option Time) where
  -- The record of NewNotification.
  abbrev pub made : Notification
  made = record {
    id = id;
    batch_id = none;
    idempotency_key = none;
    channel = channel;
    recipient = recipient;
    content = content;
    priority = priority;
    status = if is_some scheduled_at then scheduled else pending;
    scheduled_at = scheduled_at;
    sent_at = none;
    failed_at = none;
    error_message = none;
    retry_count = 0;
    max_retries = priority_max_retries priority;
    provider_message_id = none;
    template_id = none;
    template_variables = [];
    created_at = now;
    updated_at = now;
  }

  pub new_notification-made :
      (n : Notification)
      → new_notification id now channel recipient content priority scheduled_at ≡ ok n
      → made ≡ n
  unfolding new_notification
  new_notification-made n h = ground arith

-- The notification with what the columns keep of its times.
unfoldable pub with_times : (Time → Time) → Notification → Notification
with_times kept n = record n {
  scheduled_at = Option.map kept n.scheduled_at;
  created_at = kept n.created_at;
  updated_at = kept n.updated_at;
}

-- A notification of NewNotification, with whatever batch, key, template and variables the service gives
-- it, is read from the row of its INSERT as it was, but for its times, of which it has what TIMESTAMPTZ
-- keeps, when the variables survive their JSON. If it keeps all of the three times, nothing is lost.
pub row_to_notification-insert_columns :
    (marshal : Variables → String) (unmarshal : String → Variables) (kept : Time → Time) (id : Uuid)
    (now : Time) (channel : Channel) (recipient content : String) (priority : Priority)
    (scheduled_at : Option Time) (n : Notification)
    → new_notification id now channel recipient content priority scheduled_at ≡ ok n
    → (batch_id : Option Uuid) (key : Option String) (template_id : Option Uuid)
      (variables : Variables)
    → unmarshal (marshal variables) ≡ variables
    → let m = filled batch_id key template_id variables n in
      let read = row_to_notification marshal unmarshal (insert_columns marshal unmarshal kept m) in
      (read ≡ with_times kept m)
      × (kept now ≡ now → Option.map kept scheduled_at ≡ scheduled_at → read ≡ m)
unfolding row_to_notification insert_columns filled with_times
row_to_notification-insert_columns marshal unmarshal kept id now channel recipient content priority
      scheduled_at n h batch_id key template_id variables r =
    let (a, b, c, d) = validated id now channel recipient content priority scheduled_at n h in
    subst
      (λ k.
        let m = filled batch_id key template_id variables k in
        let read =
          row_to_notification marshal unmarshal (insert_columns marshal unmarshal kept m) in
        (read ≡ with_times kept m)
        × (kept now ≡ now → Option.map kept scheduled_at ≡ scheduled_at → read ≡ m))
      (new_notification-made id now channel recipient content priority scheduled_at n h)
      (
        rw (channel_kept channel a, priority_kept priority d, first_status_kept scheduled_at, r)
            refl,
        λ whole planned.
            rw
              (
                channel_kept channel a,
                priority_kept priority d,
                first_status_kept scheduled_at,
                r,
                whole,
                planned,
              )
              refl,
      )
