-- ===== src/Domain/Status.antt =====
-- The type `Status` of internal/domain/notification.go: a Go string with named constants.
use event_driven_ns.Prelude.{Bool, true, false, String, ◌≡◌, str_eq, eq_iff, arith, if◌then◌else◌}

-- `other` holds any other text; a value read from outside is made by `of_string`.
pub data Status : Type 0 where
  pending scheduled processing delivered failed cancelled : Status
  other : String → Status

-- The conversion `string(x)`.
unfoldable pub to_string : Status → String
to_string pending = "pending"
to_string scheduled = "scheduled"
to_string processing = "processing"
to_string delivered = "delivered"
to_string failed = "failed"
to_string cancelled = "cancelled"
to_string (other s) = s

-- The conversion `Status(s)` of a string.
unfoldable pub of_string : String → Status
of_string s =
    if str_eq s "pending"
    then pending
    else if str_eq s "scheduled"
    then scheduled
    else if str_eq s "processing"
    then processing
    else if str_eq s "delivered"
    then delivered
    else if str_eq s "failed"
    then failed
    else if str_eq s "cancelled"
    then cancelled
    else other s

-- The conversion to a string and back loses nothing.
pub to_string-of_string : (s : String) → to_string (of_string s) ≡ s
unfolding to_string of_string
to_string-of_string s = ground (
  arith,
  eq_iff s "pending",
  eq_iff s "scheduled",
  eq_iff s "processing",
  eq_iff s "delivered",
  eq_iff s "failed",
  eq_iff s "cancelled",
)

-- `==` on two values of the type, and on a column.
unfoldable pub is_status : Status → Status → Bool
is_status pending pending = true
is_status scheduled scheduled = true
is_status processing processing = true
is_status delivered delivered = true
is_status failed failed = true
is_status cancelled cancelled = true
is_status (other s) (other t) = str_eq s t
is_status _ _ = false
