-- ===== src/Platform.antt =====
-- What the program calls and this repository does not implement: the clock, the generator and the
-- codec of UUIDs (github.com/google/uuid), text/template, the circuit breaker
-- (github.com/sony/gobreaker), the provider behind HTTP, encoding/json on its answers, and the
-- failures of PostgreSQL and Kafka. A function of ℕ gives the answer of the call made at that step.
use event_driven_ns.Prelude.{ℕ, ◌≡◌, List, Option, none, String}
use event_driven_ns.Domain.Notification.{Uuid, Time, Variables}
use event_driven_ns.CircuitBreaker.{Settings, Call}

-- The three fields of the JSON text that the provider is sent.
pub record WebhookRequest : Type 0 where
  pub to : String
  pub channel : String
  pub content : String

-- The three fields of the JSON text that the provider may answer with.
pub record WebhookResponse : Type 0 where
  pub message_id : String
  pub status : String
  pub timestamp : String

-- An answer over HTTP, with the text of the error of reading its body.
pub record HttpResponse : Type 0 where
  pub status_code : ℕ
  pub body_error : Option String
  pub body : String

pub record Platform : Type 0 where
  -- `time.Now()`, `uuid.NewV7()` and `uuid.New()`.
  pub now : ℕ → Time
  pub fresh : ℕ → Uuid
  -- `uuid.Parse` gives a value beside its error; `id.String()`; `t.Format(time.RFC3339)`.
  pub uuid_parse : String → Uuid × Option String
  pub uuid_string : Uuid → String
  pub rfc3339 : Time → String
  -- `time.Parse(time.RFC3339, s)`; `none` is an error.
  pub parse_rfc3339 : String → Option Time
  -- `template.New(name).Parse(body)`: the text of its error. `Execute` on the parsed template: the
  -- text of its error, and what it wrote.
  pub template_error : String → String → Option String
  pub execute_error : String → String → Variables → Option String
  pub execute_output : String → String → Variables → String
  -- `propagateTraceContext`, of OpenTelemetry.
  pub carrier : ℕ → Variables
  -- A statement or a publication that fails for a reason outside the program.
  pub fault : ℕ → Option String
  -- A breaker of these settings, which has let these calls through, refuses a call at this time, with
  -- an error of its own package.
  pub breaker_refuses : Settings → List Call → Time → Option String
  -- `http.NewRequestWithContext` refuses the configured address.
  pub address_error : Option String
  -- The request is sent: the text of the transport's error, or the answer.
  pub http_error : ℕ → WebhookRequest → Option String
  pub http_answer : ℕ → WebhookRequest → HttpResponse
  -- `net.DialTimeout("tcp", address, …)`: the text of its error.
  pub dial_error : ℕ → String → Option String
  -- `websocket.Accept`: the text of its error.
  pub upgrade_error : ℕ → Option String
  -- `json.Unmarshal` of an answer; `none` is an error.
  pub json_response : String → Option WebhookResponse

-- The documented behaviour of the codec of UUIDs.
pub record UuidRoundTrip (p : Platform) : Type 0 where
  pub parse_string : (u : Uuid) → p.uuid_parse (p.uuid_string u) ≡ (u, none)
