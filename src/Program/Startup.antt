-- ===== src/Program/Startup.antt =====
-- cmd/api/main.go and cmd/worker/main.go, from Load to the wait for a signal, the server of the API
-- included, with NewConnection of
-- internal/adapter/postgres/connection.go.
use event_driven_ns.Prelude.{List, [], ◌∷◌, ◌++◌, Option, none, some, String}
use Prim.Native.String.{◌++◌ as append}
use event_driven_ns.Domain.Error.{Result, ok, err}
use event_driven_ns.Domain.Notification.{Time}
use event_driven_ns.World.{World}
use event_driven_ns.Config.{Config, Environment, load}
use event_driven_ns.Logger.{Level, parse_level}
use event_driven_ns.Tracing.{TracerProvider, init_tracer}
use event_driven_ns.Queue.Consumer.Lifecycle.{Consumer, worker_config, new_consumer, start}
use event_driven_ns.Ws.Hub.{Hub, new_hub}
use event_driven_ns.Http.Router.{Api, new_router}

-- What `Up` of the migrator answers.
pub data Migrated : Type 0 where
  applied no_change : Migrated
  failed : String → Migrated

-- What the calls at the start answer: zap, OpenTelemetry, the driver (to connect and to be pinged),
-- golang-migrate, and `ListenAndServe` of an address: an error but ErrServerClosed, or none until the
-- signal.
pub record Outside : Type 0 where
  pub env : Environment
  pub logger_error : Option String
  pub exporter_error : String → Option String
  pub resource_error : Option String
  pub connect_error : String → Option String
  pub ping_error : Option String
  pub migrator_error : Option String
  pub up : Migrated
  pub listen_error : String → Option String

-- `NewConnection`.
unfoldable pub new_connection : Outside → String → Option String
new_connection o database_url = elim (o.connect_error database_url) [
  | some reason ↦ some reason
  | none ↦ o.ping_error
]

-- The lines that a process logs before it serves, warnings and errors.
pub data Line : Type 0 where
  no_tracer : Line
  no_migrator : Line
  no_migration : Line
  migrations_applied : Line

-- `runMigrations` only logs its errors.
unfoldable pub run_migrations : Outside → List Line
run_migrations o = elim o.migrator_error [
  | some reason ↦ no_migrator ∷ []
  | none ↦ elim o.up [
    | applied ↦ migrations_applied ∷ []
    | no_change ↦ migrations_applied ∷ []
    | failed reason ↦ no_migration ∷ []
  ]
]

-- A process ends with code 1, through `os.Exit` or `log.Fatal`, or it serves.
pub data Outcome (A : Type 0) : Type 0 where
  exits : Outcome A
  serves : A → List Line → Outcome A

-- What both do first: the logger, the tracer, the connection.
unfoldable pub trace_lines : Result TracerProvider → List Line
trace_lines (ok tp) = []
trace_lines (err e) = no_tracer ∷ []

unfoldable pub connected : {A : Type 0} → Outside → String → List Line → (Config → A) → Outcome A
unfolding new_connection trace_lines init_tracer load
connected o service_name later process = elim o.logger_error [
  | some reason ↦ exits
  | none ↦ elim (new_connection o (load o.env).database_url) [
    | some reason ↦ exits
    | none ↦ serves (process (load o.env)) (
        trace_lines
          (init_tracer o.exporter_error o.resource_error service_name (load o.env).jaeger_endpoint)
        ++ later)
  ]
]

-- The server of the API: its address, its level of logs, and the router over the tables.
pub record ApiProcess : Type 0 where
  pub addr : String
  pub level : Level
  pub api : Api

pub record WorkerProcess : Type 0 where
  pub level : Level
  pub webhook_url : String
  pub hub : Hub
  pub consumer : Consumer

unfoldable pub api_process : Time → World → Config → ApiProcess
unfolding parse_level new_router new_hub
api_process now w cfg = record {
  addr = append ":" cfg.app_port;
  level = parse_level cfg.log_level;
  api = new_router now w cfg.kafka_brokers new_hub;
}

-- The goroutine of the server: `log.Fatal` ends the process.
unfoldable pub listen : Outside → Outcome ApiProcess → Outcome ApiProcess
listen o exits = exits
listen o (serves a lines) = elim (o.listen_error a.addr) [
  | some reason ↦ exits
  | none ↦ serves a lines
]

unfoldable pub start_api : Outside → Time → World → Outcome ApiProcess
unfolding connected run_migrations api_process listen
start_api o now w = listen o (connected o "event-driven-ns" (run_migrations o) (api_process now w))

unfoldable pub start_worker : Outside → Outcome WorkerProcess
unfolding connected parse_level new_hub worker_config new_consumer start
start_worker o = connected o "event-driven-ns-worker" [] (λ cfg. record {
  level = parse_level cfg.log_level;
  webhook_url = cfg.webhook_url;
  hub = new_hub;
  consumer = start (new_consumer (worker_config cfg));
})
