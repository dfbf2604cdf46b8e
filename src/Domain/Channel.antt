-- ===== src/Domain/Channel.antt =====
-- The type `Channel` of internal/domain/notification.go: a Go string with named constants.
use event_driven_ns.Prelude.{Bool, true, false, String, ◌≡◌, str_eq, eq_iff, arith, if◌then◌else◌}

-- `other` holds any other text; a value read from outside is made by `of_string`.
pub data Channel : Type 0 where
  sms email push : Channel
  other : String → Channel

-- The conversion `string(x)`.
unfoldable pub to_string : Channel → String
to_string sms = "sms"
to_string email = "email"
to_string push = "push"
to_string (other s) = s

-- The conversion `Channel(s)` of a string.
unfoldable pub of_string : String → Channel
of_string s =
    if str_eq s "sms"
    then sms
    else if str_eq s "email"
    then email
    else if str_eq s "push"
    then push
    else other s

-- The conversion to a string and back loses nothing.
pub to_string-of_string : (s : String) → to_string (of_string s) ≡ s
unfolding to_string of_string
to_string-of_string s = ground (arith, eq_iff s "sms", eq_iff s "email", eq_iff s "push")

-- `==` on two values of the type, and on a column.
unfoldable pub is_channel : Channel → Channel → Bool
is_channel sms sms = true
is_channel email email = true
is_channel push push = true
is_channel (other s) (other t) = str_eq s t
is_channel _ _ = false
