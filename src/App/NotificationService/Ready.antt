-- ===== src/App/NotificationService/Ready.antt =====
-- When a notification of internal/domain/notification.go is published by the request that makes it.
use event_driven_ns.Prelude.{◌≤◌, false, Option, none, some, String, ◌≡◌, refl, arith}
use event_driven_ns.Domain.Priority.{Priority}
use event_driven_ns.Domain.Notification.{Uuid, Time, Variables, Notification, priority_max_retries}
use event_driven_ns.Postgres.Columns.{made}
use event_driven_ns.Queue.Publisher.{topic_for_priority}
use event_driven_ns.App.DeliveryService.{is_settled}
use event_driven_ns.App.NotificationService.{CreateNotificationInput}

-- A notification that is to be published at once.
pub record IsReady (topic : String) (n : Notification) : Type 0 where
  pub unscheduled : n.scheduled_at ≡ none
  pub topic_known : topic_for_priority n.priority ≡ some topic
  pub unsettled : is_settled n.status ≡ false
  pub attempts : n.max_retries ≤ 5

max_retries_le : (q : Priority) → priority_max_retries q ≤ 5
unfolding priority_max_retries
max_retries_le Priority.high = ground arith
max_retries_le Priority.normal = ground arith
max_retries_le Priority.low = ground arith
max_retries_le (Priority.other s) = ground arith

pub made-IsReady :
    (topic : String) (input : CreateNotificationInput) (id : Uuid) (now : Time) (content : String)
    → input.scheduled_at ≡ none
    → topic_for_priority input.priority ≡ some topic
    → IsReady topic
        (made id now input.channel input.recipient content input.priority input.scheduled_at)
made-IsReady topic input id now content now_due known = record {
  unscheduled = now_due;
  topic_known = known;
  unsettled = rw now_due (unfold is_settled in refl);
  attempts = max_retries_le input.priority;
}

pub IsReady-filled :
    (topic : String) (m : Notification) (batch_id : Option Uuid) (key : Option String)
    (template_id : Option Uuid) (variables : Variables)
    → IsReady topic m
    → IsReady topic (record m {
      batch_id = batch_id;
      idempotency_key = key;
      template_id = template_id;
      template_variables = variables;
    })
IsReady-filled topic m batch_id key template_id variables r = record {
  unscheduled = r.unscheduled;
  topic_known = r.topic_known;
  unsettled = r.unsettled;
  attempts = r.attempts;
}
