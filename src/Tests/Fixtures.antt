-- ===== src/Tests/Fixtures.antt =====
-- A platform that can be run, and a world with one notification in its queue.
use event_driven_ns.Prelude.{
  ℕ, zero, suc, [], ◌∷◌, if◌then◌else◌, List, Option, none, some, String, ◌≡◌, refl, ap,
}
use event_driven_ns.Prelude.Int.{pos}
use event_driven_ns.Domain.Channel.{push}
use event_driven_ns.Domain.Priority.{low}
use event_driven_ns.Domain.Status.{pending}
use event_driven_ns.Domain.Notification.{Uuid, Notification}
use event_driven_ns.CircuitBreaker.{Call}
use event_driven_ns.Platform.{Platform, UuidRoundTrip}
use event_driven_ns.World.{World, NotificationBatch, Message, NotificationPayload, json}
use event_driven_ns.Postgres.Healthy.{IsHealthy}

-- An identifier is written as so many strokes.
abbrev pub strokes : Uuid → String
strokes zero = ""
strokes (suc u) = String.◌∷◌ "|" (strokes u)

abbrev pub tally : String → ℕ
tally String.[] = 0
tally (String.◌∷◌ c s) = suc (tally s)

tally-strokes : (u : Uuid) → tally (strokes u) ≡ u
tally-strokes zero = refl
tally-strokes (suc u) = ap suc (tally-strokes u)

-- The clock and the generator count the steps; the provider always gives the same status code, and
-- the breaker the same refusal.
abbrev pub platform : ℕ → Option String → Platform
platform status_code refusal = record {
  now = λ k. k;
  fresh = λ k. k;
  uuid_parse = λ s. (tally s, none);
  uuid_string = strokes;
  rfc3339 = λ t. "time";
  parse_rfc3339 = λ s. none;
  template_error = λ name body. none;
  execute_error = λ name body variables. none;
  execute_output = λ name body variables. body;
  carrier = λ k. [];
  fault = λ k. none;
  breaker_refuses = λ s calls t. refusal;
  address_error = none;
  http_error = λ k request. none;
  http_answer = λ k request. record { status_code = status_code; body_error = none; body = "" };
  dial_error = λ k address. none;
  upgrade_error = λ k. none;
  json_response = λ body. none;
}

-- How many calls have failed since one succeeded.
abbrev pub failures : ℕ → List Call → ℕ
failures k [] = k
failures k (c ∷ calls) = failures (if c.succeeded then 0 else suc k) calls

-- The provider is overloaded, and a breaker is open from the failures on that its settings name.
abbrev pub overloaded : Platform
overloaded = record (platform 503 none) {
  breaker_refuses = λ s calls t.
      if s.ready_to_trip (record { consecutive_failures = failures 0 calls })
      then some "circuit breaker is open"
      else none;
}

pub platform-IsHealthy :
    (status_code : ℕ) (refusal : Option String) → IsHealthy (platform status_code refusal)
platform-IsHealthy status_code refusal k = refl

pub platform-UuidRoundTrip :
    (status_code : ℕ) (refusal : Option String) → UuidRoundTrip (platform status_code refusal)
platform-UuidRoundTrip status_code refusal = record {
  parse_string = λ u. ap (λ i. (i, none)) (tally-strokes u);
}

-- A push notification of low priority, in a batch.
abbrev pub waiting : Notification
waiting = record {
  id = 3;
  batch_id = some 9;
  idempotency_key = none;
  channel = push;
  recipient = "token";
  content = "hello";
  priority = low;
  status = pending;
  scheduled_at = none;
  sent_at = none;
  failed_at = none;
  error_message = none;
  retry_count = 0;
  max_retries = 2;
  provider_message_id = none;
  template_id = none;
  template_variables = [];
  created_at = 0;
  updated_at = 0;
}

abbrev pub batch_of_two : NotificationBatch
batch_of_two = record {
  id = 9;
  total_count = pos 2;
  pending_count = pos 2;
  delivered_count = pos 0;
  failed_count = pos 0;
  cancelled_count = pos 0;
  created_at = 0;
}

abbrev pub waiting_payload : NotificationPayload
waiting_payload = record { notification_id = "|||"; channel = "push"; carrier = [] }

abbrev pub waiting_message : Message
waiting_message = record { topic = "notifications.low"; key = "|||"; value = json waiting_payload }

abbrev pub queued : World
queued = record {
  step = 0;
  notifications = waiting ∷ [];
  batches = batch_of_two ∷ [];
  templates = [];
  keys = [];
  messages = waiting_message ∷ [];
  updates = [];
  requests = [];
  calls = [];
}
