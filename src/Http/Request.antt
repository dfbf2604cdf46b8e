-- ===== src/Http/Request.antt =====
-- The requests of internal/adapter/http/notification_dto.go and template_dto.go.
use event_driven_ns.Prelude.{Option, none, some, String}
use event_driven_ns.Prelude.Int.{ℤ}
use event_driven_ns.Domain.Channel
use event_driven_ns.Domain.Priority
use event_driven_ns.Domain.Status
use event_driven_ns.Domain.Notification.{Uuid, Time, Variables}
use event_driven_ns.Platform.{Platform}
use event_driven_ns.Postgres.Notifications.{NotificationFilter}
use event_driven_ns.App.NotificationService.{CreateNotificationInput}
use event_driven_ns.App.TemplateService.{CreateTemplateInput}

pub record CreateNotificationRequest : Type 0 where
  pub channel : String
  pub recipient : String
  pub content : String
  pub priority : String
  pub scheduled_at : Option Time
  pub idempotency_key : Option String
  pub template_id : Option String
  pub template_variables : Variables

pub record ListNotificationsRequest : Type 0 where
  pub status : Option String
  pub channel : Option String
  pub date_from : Option String
  pub date_to : Option String
  pub cursor : Option String
  pub page_size : ℤ

pub record CreateTemplateRequest : Type 0 where
  pub name : String
  pub channel : String
  pub body : String

-- `if r.X != nil { if v, err := parse(*r.X); err == nil { … } }`: a text that does not parse is
-- dropped.
abbrev parsed_id : Uuid × Option String → Option Uuid
parsed_id (id, none) = some id
parsed_id (id, some reason) = none

abbrev optional : {A B : Type 0} → (A → Option B) → Option A → Option B
optional f none = none
optional f (some a) = f a

module _ ⦃p : Platform⦄ where
  abbrev uuid_or_none : String → Option Uuid
  uuid_or_none text = parsed_id (p.uuid_parse text)

  unfoldable pub to_input : CreateNotificationRequest → CreateNotificationInput
  unfolding Channel.of_string Priority.of_string
  to_input r = record {
    channel = Channel.of_string r.channel;
    recipient = r.recipient;
    content = r.content;
    priority = Priority.of_string r.priority;
    scheduled_at = r.scheduled_at;
    idempotency_key = r.idempotency_key;
    template_id = optional uuid_or_none r.template_id;
    template_variables = r.template_variables;
  }

  -- The identifier of a batch is not a parameter of the query.
  unfoldable pub to_filter : ListNotificationsRequest → NotificationFilter
  unfolding Channel.of_string Status.of_string
  to_filter r = record {
    status = optional (λ s. some (Status.of_string s)) r.status;
    channel = optional (λ s. some (Channel.of_string s)) r.channel;
    date_from = optional p.parse_rfc3339 r.date_from;
    date_to = optional p.parse_rfc3339 r.date_to;
    batch_id = none;
    cursor = optional uuid_or_none r.cursor;
    page_size = r.page_size;
  }

unfoldable pub to_template_input : CreateTemplateRequest → CreateTemplateInput
unfolding Channel.of_string
to_template_input r = record { name = r.name; channel = Channel.of_string r.channel; body = r.body }
