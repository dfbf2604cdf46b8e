-- ===== src/Logger.antt =====
-- pkg/logger/logger.go: levels, and the correlation identifier that a context carries. zap's encoding
-- and output are no part of the state.
use event_driven_ns.Prelude.{Option, none, some, String, str_eq, if◌then◌else◌}

-- The levels of zap that are named.
pub data Level : Type 0 where
  debug info warn error : Level

unfoldable pub parse_level : String → Level
parse_level level =
    if str_eq level "debug"
    then debug
    else if str_eq level "info"
    then info
    else if str_eq level "warn"
    then warn
    else if str_eq level "error"
    then error
    else info

-- A context, by its value at `correlationIDKey`; the type of the key is private to the package.
pub record Context : Type 0 where
  pub correlation_id : Option String

unfoldable pub with_correlation_id : Context → String → Context
with_correlation_id ctx correlation_id = record ctx { correlation_id = some correlation_id }

-- The value, or the empty text.
abbrev pub value_or_empty : Option String → String
value_or_empty none = ""
value_or_empty (some correlation_id) = correlation_id

unfoldable pub correlation_id_from_context : Context → String
correlation_id_from_context ctx = value_or_empty ctx.correlation_id
