-- ===== src/Domain/Validation.antt =====
-- The validators of internal/domain/notification.go. A Go `error` that may be nil is an `Option`.
pub mod Recipient
use Prim.Native.Char.{code}
use Prim.Native.String.{◌++◌ as append}
use event_driven_ns.Prelude.{
  ℕ, Bool, ◌&&◌, ◌||◌, List, [], ◌∷◌, Option, none, some, String, len, str_eq, ◌==◌, ltb, leb, not,
  if◌then◌else◌,
}
use event_driven_ns.Prelude.Decimal.{itoa}
use event_driven_ns.Domain.Error
use event_driven_ns.Domain.Error.{
  Error, plain, wrapped, invalid_channel, invalid_recipient, empty_recipient, empty_content,
  content_too_long, invalid_priority,
}
use event_driven_ns.Domain.Channel
use event_driven_ns.Domain.Channel.{Channel, sms, email, push}
use event_driven_ns.Domain.Priority
use event_driven_ns.Domain.Priority.{Priority, high, normal, low}
use event_driven_ns.Domain.Regex.{Regex, class, cat, at_least, at_most, exactly, accepts}

-- The characters of a text, as code points.
abbrev pub codes : String → List ℕ
codes String.[] = []
codes (String.◌∷◌ c s) = code c ∷ codes s

-- The classes of the two expressions.
abbrev pub is_digit : ℕ → Bool
is_digit c = leb b'0' c && leb c b'9'

abbrev pub is_letter : ℕ → Bool
is_letter c = (leb b'a' c && leb c b'z') || (leb b'A' c && leb c b'Z')

-- [a-zA-Z0-9._%+\-]
abbrev pub is_local : ℕ → Bool
is_local c =
    is_letter c
    || (is_digit c || (c == b'.' || (c == b'_' || (c == b'%' || (c == b'+' || c == b'-')))))

-- [a-zA-Z0-9.\-]
abbrev pub is_domain : ℕ → Bool
is_domain c = is_letter c || (is_digit c || (c == b'.' || c == b'-'))

abbrev pub is_nonzero_digit : ℕ → Bool
is_nonzero_digit c = leb b'1' c && leb c b'9'

-- ^\+[1-9]\d{6,14}$
unfoldable pub e164_regex : Regex
unfolding exactly at_most
e164_regex =
    cat (class (λ c. c == b'+'))
      (cat (class is_nonzero_digit) (cat (exactly 6 (class is_digit)) (at_most 8 (class is_digit))))

-- ^[a-zA-Z0-9._%+\-]+@[a-zA-Z0-9.\-]+\.[a-zA-Z]{2,}$
unfoldable pub email_regex : Regex
unfolding at_least
email_regex = cat (at_least 1 (class is_local)) (
    cat (class (λ c. c == b'@')) (
      cat (at_least 1 (class is_domain))
        (cat (class (λ c. c == b'.')) (at_least 2 (class is_letter)))))

unfoldable pub validate_channel : Channel → Option Error
unfolding Channel.to_string
validate_channel sms = none
validate_channel email = none
validate_channel push = none
validate_channel (Channel.other s) = some (wrapped invalid_channel s)

-- The `switch` on the channel, after the test for an empty recipient.
recipient_format : Channel → String → Option Error
unfolding accepts
recipient_format sms recipient =
    if not (accepts e164_regex (codes recipient))
    then some (wrapped invalid_recipient "must be E.164 format")
    else none
recipient_format email recipient =
    if not (accepts email_regex (codes recipient))
    then some (wrapped invalid_recipient "must be valid email")
    else none
recipient_format push recipient =
    if ltb (len recipient) 1 then some (wrapped invalid_recipient "device token required") else none
recipient_format (Channel.other s) recipient = none

unfoldable pub validate_recipient : Channel → String → Option Error
unfolding recipient_format
validate_recipient ch recipient =
    if str_eq recipient "" then some (plain empty_recipient) else recipient_format ch recipient

-- `channelContentLimits[ch]`.
unfoldable pub channel_content_limit : Channel → Option ℕ
channel_content_limit sms = some 160
channel_content_limit email = some 10000
channel_content_limit push = some 4096
channel_content_limit (Channel.other s) = none

content_too_long_text : ℕ → Channel → String
content_too_long_text limit ch =
    append "max " (append (itoa limit) (append " characters for " (Channel.to_string ch)))

-- `len(content) > limit` counts bytes.
within_limit : Channel → String → Option ℕ → Option Error
within_limit ch content none = some (wrapped invalid_channel (Channel.to_string ch))
within_limit ch content (some limit) =
    if ltb limit (len content)
    then some (wrapped content_too_long (content_too_long_text limit ch))
    else none

unfoldable pub validate_content : Channel → String → Option Error
unfolding within_limit content_too_long_text channel_content_limit
validate_content ch content =
    if str_eq content ""
    then some (plain empty_content)
    else within_limit ch content (channel_content_limit ch)

unfoldable pub validate_priority : Priority → Option Error
validate_priority high = none
validate_priority normal = none
validate_priority low = none
validate_priority (Priority.other s) = some (wrapped invalid_priority s)
