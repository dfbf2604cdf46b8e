-- ===== src/Domain/Error.antt =====
-- internal/domain/errors.go, and the Go `error` values that the program builds from its sentinels.
use Prim.Native.String.{◌++◌ as append}
use event_driven_ns.Prelude.{ℕ, Bool, false, String, ◌==◌}

-- The `errors.New` values of the package.
pub data Sentinel : Type 0 where
  invalid_channel invalid_recipient empty_recipient empty_content content_too_long : Sentinel
  invalid_priority invalid_status_transition notification_not_found batch_not_found : Sentinel
  batch_too_large batch_empty duplicate_idempotency_key empty_template_name : Sentinel
  empty_template_body invalid_template_body template_not_found duplicate_template_name : Sentinel
  template_render_failed provider_unavailable circuit_open : Sentinel

-- An `error`: a sentinel, `fmt.Errorf("%w: …", sentinel, …)` with the text after the colon, or an
-- error that wraps no sentinel of the package (of the driver, the broker, the codec, …).
pub data Error : Type 0 where
  plain : Sentinel → Error
  wrapped : Sentinel → String → Error
  foreign : String → Error

unfoldable pub text : Sentinel → String
text invalid_channel = "invalid channel"
text invalid_recipient = "invalid recipient"
text empty_recipient = "recipient is required"
text empty_content = "content is required"
text content_too_long = "content exceeds character limit"
text invalid_priority = "invalid priority"
text invalid_status_transition = "invalid status transition"
text notification_not_found = "notification not found"
text batch_not_found = "batch not found"
text batch_too_large = "batch exceeds maximum size of 1000"
text batch_empty = "batch must contain at least one notification"
text duplicate_idempotency_key = "duplicate idempotency key"
text empty_template_name = "template name is required"
text empty_template_body = "template body is required"
text invalid_template_body = "invalid template body syntax"
text template_not_found = "template not found"
text duplicate_template_name = "template name already exists"
text template_render_failed = "template render failed"
text provider_unavailable = "delivery provider unavailable"
text circuit_open = "circuit breaker is open"

-- `err.Error()`.
unfoldable pub message : Error → String
unfolding text
message (plain s) = text s
message (wrapped s detail) = append (text s) (append ": " detail)
message (foreign detail) = detail

-- Sentinels are compared by identity: each has its place in the `var` block.
abbrev pub identity : Sentinel → ℕ
identity invalid_channel = 0
identity invalid_recipient = 1
identity empty_recipient = 2
identity empty_content = 3
identity content_too_long = 4
identity invalid_priority = 5
identity invalid_status_transition = 6
identity notification_not_found = 7
identity batch_not_found = 8
identity batch_too_large = 9
identity batch_empty = 10
identity duplicate_idempotency_key = 11
identity empty_template_name = 12
identity empty_template_body = 13
identity invalid_template_body = 14
identity template_not_found = 15
identity duplicate_template_name = 16
identity template_render_failed = 17
identity provider_unavailable = 18
identity circuit_open = 19

-- `errors.Is(err, sentinel)`, of the standard library: it looks through `%w`.
abbrev pub errors_is : Error → Sentinel → Bool
errors_is (plain s) t = identity s == identity t
errors_is (wrapped s detail) t = identity s == identity t
errors_is (foreign detail) t = false

-- A result of a Go function `(T, error)`.
pub data Result {ℓ} (A : Type ℓ) : Type ℓ where
  ok : A → Result A
  err : Error → Result A
