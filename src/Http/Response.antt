-- ===== src/Http/Response.antt =====
-- The answers of internal/adapter/http/notification_dto.go, template_dto.go and dto.go.
pub mod Pages
use mathlib.Core.Option
use event_driven_ns.Prelude.{
  ℕ, ◌-◌, Bool, true, false, List, [], ◌∷◌, Option, none, some, String, map, length, ◌==◌,
  if◌then◌else◌,
}
use event_driven_ns.Prelude.Int.{ℤ, pos, negsuc}
use event_driven_ns.Domain.Channel
use event_driven_ns.Domain.Priority
use event_driven_ns.Domain.Status
use event_driven_ns.Domain.Notification.{Uuid, Time, Variables, Notification}
use event_driven_ns.Domain.Template.{Template}
use event_driven_ns.Platform.{Platform}
use event_driven_ns.World.{NotificationBatch}

pub record NotificationResponse : Type 0 where
  pub id : String
  pub batch_id : Option String
  pub channel : String
  pub recipient : String
  pub content : String
  pub priority : String
  pub status : String
  pub scheduled_at : Option Time
  pub sent_at : Option Time
  pub failed_at : Option Time
  pub error_message : Option String
  pub retry_count : ℕ
  pub max_retries : ℕ
  pub provider_message_id : Option String
  pub template_id : Option String
  pub template_variables : Variables
  pub created_at : Time
  pub updated_at : Time

pub record ListResponse : Type 0 where
  pub items : List NotificationResponse
  pub next_cursor : Option String

pub record BatchResponse : Type 0 where
  pub id : String
  pub total_count : ℤ
  pub pending_count : ℤ
  pub delivered_count : ℤ
  pub failed_count : ℤ
  pub cancelled_count : ℤ
  pub created_at : Time

pub record CreateBatchResponse : Type 0 where
  pub batch : BatchResponse
  pub notifications : List NotificationResponse

pub record TemplateResponse : Type 0 where
  pub id : String
  pub name : String
  pub channel : String
  pub body : String
  pub created_at : Time
  pub updated_at : Time

-- `notifications[len(notifications)-1]`, which panics on an empty slice.
unfoldable pub last : List Notification → Option Notification
last [] = none
last (n ∷ []) = some n
last (n ∷ m ∷ ns) = last (m ∷ ns)

-- `len(notifications) == pageSize`, for a Go `int`.
abbrev pub has_length : ℤ → ℕ → Bool
has_length (pos n) k = k == n
has_length (negsuc n) k = false

module _ ⦃p : Platform⦄ where
  unfoldable pub new_notification_response : Notification → NotificationResponse
  unfolding Channel.to_string Priority.to_string Status.to_string
  new_notification_response n = record {
    id = p.uuid_string n.id;
    batch_id = Option.map p.uuid_string n.batch_id;
    channel = Channel.to_string n.channel;
    recipient = n.recipient;
    content = n.content;
    priority = Priority.to_string n.priority;
    status = Status.to_string n.status;
    scheduled_at = n.scheduled_at;
    sent_at = n.sent_at;
    failed_at = n.failed_at;
    error_message = n.error_message;
    retry_count = n.retry_count;
    max_retries = n.max_retries;
    provider_message_id = n.provider_message_id;
    template_id = Option.map p.uuid_string n.template_id;
    template_variables = n.template_variables;
    created_at = n.created_at;
    updated_at = n.updated_at;
  }

  -- The result is `none` where the code panics.
  unfoldable pub new_notification_list_response : List Notification → ℤ → Option ListResponse
  unfolding last new_notification_response
  new_notification_list_response ns page_size =
      let rows = map new_notification_response ns in
      if has_length page_size (length ns)
      then Option.map (λ n. record { items = rows; next_cursor = some (p.uuid_string n.id) })
          (last ns)
      else some (record { items = rows; next_cursor = none })

  unfoldable pub new_batch_response : NotificationBatch → BatchResponse
  new_batch_response b = record {
    id = p.uuid_string b.id;
    total_count = b.total_count;
    pending_count = b.pending_count;
    delivered_count = b.delivered_count;
    failed_count = b.failed_count;
    cancelled_count = b.cancelled_count;
    created_at = b.created_at;
  }

  unfoldable pub new_create_batch_response :
      NotificationBatch → List Notification → CreateBatchResponse
  unfolding new_batch_response new_notification_response
  new_create_batch_response b ns = record {
    batch = new_batch_response b;
    notifications = map new_notification_response ns;
  }

  unfoldable pub new_template_response : Template → TemplateResponse
  unfolding Channel.to_string
  new_template_response t = record {
    id = p.uuid_string t.id;
    name = t.name;
    channel = Channel.to_string t.channel;
    body = t.body;
    created_at = t.created_at;
    updated_at = t.updated_at;
  }
