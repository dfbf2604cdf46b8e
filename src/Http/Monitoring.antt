-- ===== src/Http/Monitoring.antt =====
-- internal/adapter/http/health_handler.go, metrics_handler.go and websocket_handler.go.
pub mod Ready
use Prim.Native.String.{◌++◌ as append}
use event_driven_ns.Prelude.{List, [], ◌∷◌, Option, none, some, String, if◌then◌else◌}
use event_driven_ns.Domain.Error.{Result, ok, err}
use event_driven_ns.Platform.{Platform}
use event_driven_ns.World.{World, tick}
use event_driven_ns.Postgres.Driver.{contains}
use event_driven_ns.App.Metrics.{MetricsSnapshot, snapshot}
use event_driven_ns.Ws.Hub.{Hub, accept}
use event_driven_ns.Http.Handlers.{Reply, json, failed, panicked, Handled}

-- The `gin.H` of both answers, and the map of checks.
pub record HealthReport : Type 0 where
  pub status : String
  pub checks : List (String × String)

-- A host without a port gets Kafka's.
unfoldable pub broker_address : String → String
broker_address broker = if contains broker ":" then broker else append broker ":9092"

-- The answers of a readiness check, by what failed.
unfoldable pub database_down : HealthReport
database_down = record { status = "not ready"; checks = ("database", "unhealthy") ∷ [] }

unfoldable pub kafka_down : HealthReport
kafka_down = record {
  status = "not ready";
  checks = ("database", "healthy") ∷ ("kafka", "unhealthy") ∷ [];
}

unfoldable pub all_up : HealthReport
all_up = record { status = "ready"; checks = ("database", "healthy") ∷ ("kafka", "healthy") ∷ [] }

abbrev pub upgraded : Result {0} Unit → Reply Unit
upgraded (ok u) = json 101 u
upgraded (err e) = failed 500 "websocket upgrade failed"

module _ ⦃p : Platform⦄ where
  unfoldable pub liveness : Handled HealthReport
  liveness w = (json 200 (record { status = "alive"; checks = [] }), w)

  -- `h.kafkaBrokers[0]`, which panics on an empty slice.
  unfoldable pub check_broker : List String → Handled HealthReport
  unfolding broker_address kafka_down all_up
  check_broker [] w = (panicked, w)
  check_broker (broker ∷ brokers) w = elim (p.dial_error w.step (broker_address broker)) [
    | some reason ↦ (json 503 kafka_down, tick w)
    | none ↦ (json 200 all_up, tick w)
  ]

  unfoldable pub readiness : List String → Handled HealthReport
  unfolding check_broker database_down
  readiness brokers w = elim (p.fault w.step) [
    | some reason ↦ (json 503 database_down, tick w)
    | none ↦ check_broker brokers (tick w)
  ]

  unfoldable pub get_metrics : Handled MetricsSnapshot
  unfolding snapshot
  get_metrics w = let (s, w') = snapshot w in (json 200 s, w')

  -- 101 is the answer that `Accept` sends before the connection is a WebSocket.
  unfoldable pub websocket : World → Hub → Reply Unit × Hub × World
  unfolding accept
  websocket w hub =
      let (r, hub') = accept (p.upgrade_error w.step) hub in (upgraded r, hub', tick w)
