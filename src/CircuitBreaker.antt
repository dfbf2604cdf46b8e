-- ===== src/CircuitBreaker.antt =====
-- pkg/circuitbreaker/breaker.go: what the breakers of this program are made with. The state machine
-- of github.com/sony/gobreaker is a parameter (`breaker_refuses` of Platform): a function of the
-- settings, of the calls that the breaker has let through, and of the time.
use event_driven_ns.Prelude.{ℕ, ◌*◌, Bool, leb, List, [], ◌∷◌, String, str_eq, if◌then◌else◌}
use event_driven_ns.Domain.Notification.{Time}

-- `gobreaker.Counts`, as much of it as the program reads.
pub record Counts : Type 0 where
  pub consecutive_failures : ℕ

-- `gobreaker.Settings`, with the times in nanoseconds.
pub record Settings : Type 0 where
  pub name : String
  pub max_requests : ℕ
  pub interval : ℕ
  pub timeout : ℕ
  pub ready_to_trip : Counts → Bool

-- A call that a breaker has let through.
pub record Call : Type 0 where
  pub name : String
  pub began : Time
  pub ended : Time
  pub succeeded : Bool

unfoldable pub new : String → Settings
new name = record {
  name = name;
  max_requests = 3;
  interval = 60 * 1000000000;
  timeout = 30 * 1000000000;
  ready_to_trip = λ counts. leb 5 counts.consecutive_failures;
}

-- The calls of one breaker.
unfoldable pub calls_of : String → List Call → List Call
calls_of name [] = []
calls_of name (c ∷ calls) =
    let rest = calls_of name calls in if str_eq c.name name then c ∷ rest else rest
