-- ===== src/Domain/Notification.antt =====
-- The entities of internal/domain/notification.go. A method that mutates `*Notification` returns the
-- new record; `time.Now()` and `uuid.NewV7()` are arguments, read by the caller's `Platform`.
pub mod Create
use Prim.Native.String.{◌++◌ as append}
use event_driven_ns.Prelude.{
  ℕ, ◌+◌, Bool, true, false, ◌||◌, List, [], Option, none, some, String, is_some, ltb, not,
  if◌then◌else◌,
}
use event_driven_ns.Domain.Error.{Error, Result, ok, err, wrapped, invalid_status_transition}
use event_driven_ns.Domain.Channel.{Channel}
use event_driven_ns.Domain.Priority
use event_driven_ns.Domain.Priority.{Priority, high, normal, low}
use event_driven_ns.Domain.Status
use event_driven_ns.Domain.Status.{
  Status, pending, scheduled, processing, delivered, failed, cancelled,
}
use event_driven_ns.Domain.Validation.{
  validate_channel, validate_recipient, validate_content, validate_priority,
}

-- A `uuid.UUID` as the number of its sixteen bytes, a `time.Time` as nanoseconds since the epoch,
-- a `map[string]string` as its entries.
abbrev pub Uuid : Type 0
Uuid = ℕ

abbrev pub Time : Type 0
Time = ℕ

abbrev pub Variables : Type 0
Variables = List (String × String)

pub record Notification : Type 0 where
  pub id : Uuid
  pub batch_id : Option Uuid
  pub idempotency_key : Option String
  pub channel : Channel
  pub recipient : String
  pub content : String
  pub priority : Priority
  pub status : Status
  pub scheduled_at : Option Time
  pub sent_at : Option Time
  pub failed_at : Option Time
  pub error_message : Option String
  pub retry_count : ℕ
  pub max_retries : ℕ
  pub provider_message_id : Option String
  pub template_id : Option Uuid
  pub template_variables : Variables
  pub created_at : Time
  pub updated_at : Time

-- `priorityMaxRetries[priority]`; a missing key gives 0.
unfoldable pub priority_max_retries : Priority → ℕ
priority_max_retries high = 5
priority_max_retries normal = 3
priority_max_retries low = 2
priority_max_retries (Priority.other s) = 0

-- `if err := …; err != nil { return nil, err }`.
abbrev pub check {ℓ} : {A : Type ℓ} → Option Error → Result A → Result A
check none rest = rest
check (some e) rest = err e

unfoldable pub new_notification :
    Uuid → Time → Channel → String → String → Priority → Option Time → Result Notification
unfolding priority_max_retries
new_notification id now channel recipient content priority scheduled_at =
    check (validate_channel channel) (
      check (validate_recipient channel recipient) (
        check (validate_content channel content) (
          check (validate_priority priority) (
            ok (record {
              id = id;
              batch_id = none;
              idempotency_key = none;
              channel = channel;
              recipient = recipient;
              content = content;
              priority = priority;
              status = if is_some scheduled_at then scheduled else pending;
              scheduled_at = scheduled_at;
              sent_at = none;
              failed_at = none;
              error_message = none;
              retry_count = 0;
              max_retries = priority_max_retries priority;
              provider_message_id = none;
              template_id = none;
              template_variables = [];
              created_at = now;
              updated_at = now;
            })))))

-- `n.Status == StatusPending || n.Status == StatusScheduled`.
unfoldable pub cancellable : Status → Bool
cancellable pending = true
cancellable scheduled = true
cancellable _ = false

unfoldable pub can_cancel : Notification → Bool
unfolding cancellable
can_cancel n = cancellable n.status

unfoldable pub cancel : Time → Notification → Result Notification
unfolding can_cancel Status.to_string
cancel now n =
    if not (can_cancel n)
    then err (
        wrapped invalid_status_transition (append "current status is " (Status.to_string n.status)))
    else ok (record n { status = cancelled; updated_at = now })

unfoldable pub mark_processing : Time → Notification → Notification
mark_processing now n = record n { status = processing; updated_at = now }

unfoldable pub mark_delivered : Time → String → Notification → Notification
mark_delivered now message_id n = record n {
  status = delivered;
  provider_message_id = some message_id;
  sent_at = some now;
  updated_at = now;
}

unfoldable pub mark_failed : Time → String → Notification → Notification
mark_failed now message n = record n {
  status = failed;
  error_message = some message;
  failed_at = some now;
  updated_at = now;
}

unfoldable pub increment_retry : Time → Notification → Notification
increment_retry now n = record n { retry_count = n.retry_count + 1; updated_at = now }

unfoldable pub has_retries_left : Notification → Bool
has_retries_left n = ltb n.retry_count n.max_retries
