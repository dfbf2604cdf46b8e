-- ===== src/Domain/Priority.antt =====
-- The type `Priority` of internal/domain/notification.go: a Go string with named constants.
use event_driven_ns.Prelude.{String, ◌≡◌, str_eq, eq_iff, arith, if◌then◌else◌}

-- `other` holds any other text; a value read from outside is made by `of_string`.
pub data Priority : Type 0 where
  high normal low : Priority
  other : String → Priority

-- The conversion `string(x)`.
unfoldable pub to_string : Priority → String
to_string high = "high"
to_string normal = "normal"
to_string low = "low"
to_string (other s) = s

-- The conversion `Priority(s)` of a string.
unfoldable pub of_string : String → Priority
of_string s =
    if str_eq s "high"
    then high
    else if str_eq s "normal"
    then normal
    else if str_eq s "low"
    then low
    else other s

-- The conversion to a string and back loses nothing.
pub to_string-of_string : (s : String) → to_string (of_string s) ≡ s
unfolding to_string of_string
to_string-of_string s = ground (arith, eq_iff s "high", eq_iff s "normal", eq_iff s "low")
