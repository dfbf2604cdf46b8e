-- ===== src/World.antt =====
-- The state that the program works on: the tables of PostgreSQL, the messages in Kafka, and what
-- was sent to the provider and to WebSocket clients. Effects are actions of the monad `M`.
pub mod Triple
pub mod Hoare
use event_driven_ns.Prelude.{ℕ, ◌+◌, Option, none, some, String, List}
use event_driven_ns.Prelude.Int.{ℤ}
use event_driven_ns.Domain.Error.{Error, Result, ok, err}
use event_driven_ns.Domain.Notification.{Uuid, Time, Variables, Notification}
use event_driven_ns.Domain.Template.{Template}
use event_driven_ns.CircuitBreaker.{Call}
use event_driven_ns.Platform.{Platform, WebhookRequest}

-- `NotificationBatch`, and a row of its table: the counters are signed and go down with no guard.
pub record NotificationBatch : Type 0 where
  pub id : Uuid
  pub total_count : ℤ
  pub pending_count : ℤ
  pub delivered_count : ℤ
  pub failed_count : ℤ
  pub cancelled_count : ℤ
  pub created_at : Time

-- A row of `idempotency_keys`.
pub record KeyRow : Type 0 where
  pub key : String
  pub notification_id : Uuid
  pub expires_at : Time

-- The JSON value of a message.
pub record NotificationPayload : Type 0 where
  pub notification_id : String
  pub channel : String
  pub carrier : Variables

-- The bytes of a message: the encoding of a payload, or bytes that do not decode to one.
pub data Bytes : Type 0 where
  json : NotificationPayload → Bytes
  other : String → Bytes

pub record Message : Type 0 where
  pub topic : String
  pub key : String
  pub value : Bytes

-- What a WebSocket client is sent.
pub record StatusUpdate : Type 0 where
  pub notification_id : String
  pub status : String
  pub timestamp : String

-- `step` counts the calls of the platform. `messages` are those that the consumer group has not
-- committed; they, the updates, the requests and the calls of the circuit breakers have the oldest
-- first.
pub record World : Type 0 where
  pub step : ℕ
  pub notifications : List Notification
  pub batches : List NotificationBatch
  pub templates : List Template
  pub keys : List KeyRow
  pub messages : List Message
  pub updates : List StatusUpdate
  pub requests : List WebhookRequest
  pub calls : List Call

-- An action may fail; what it did before it failed stays done.
abbrev pub M : Type 0 → Type 0
M A = World → Result A × World

abbrev pub continue : {A B : Type 0} → Result A → (A → M B) → M B
continue (ok a) f w = f a w
continue (err e) f w = (err e, w)

infixl 10 ◌>>=◌ ◌>>◌
abbrev pub ◌>>=◌ : {A B : Type 0} → M A → (A → M B) → M B
◌>>=◌ m f w = let (r, w') = m w in continue r f w'

abbrev pub ◌>>◌ : {A B : Type 0} → M A → M B → M B
m >> n = m >>= λ _. n

abbrev pub pure : {A : Type 0} → A → M A
pure a w = (ok a, w)

abbrev pub raise : {A : Type 0} → Error → M A
raise e w = (err e, w)

abbrev pub lift : {A : Type 0} → Result A → M A
lift r w = (r, w)

abbrev pub error_of : {A : Type 0} → Result A → Option Error
error_of (ok a) = none
error_of (err e) = some e

-- `_ = f(…)`, and an error that is only logged: the caller goes on.
abbrev pub attempt : {A : Type 0} → M A → M (Option Error)
attempt m w = let (r, w') = m w in (ok (error_of r), w')

abbrev pub tick : World → World
tick w = record w { step = w.step + 1 }

module _ ⦃p : Platform⦄ where
  unfoldable pub time_now : M Time
  time_now w = (ok (p.now w.step), tick w)

  unfoldable pub new_uuid : M Uuid
  new_uuid w = (ok (p.fresh w.step), tick w)
