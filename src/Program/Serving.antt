-- ===== src/Program/Serving.antt =====
-- When cmd/api/main.go serves, and what its readiness check may answer then.
use event_driven_ns.Prelude.{List, none, String, ◌≡◌, ◌↔◌, ◌≢◌, arith}
use mathlib.Core.Path.{subst}
use event_driven_ns.Prelude.Split.{IsSome}
use event_driven_ns.Domain.Notification.{Time}
use event_driven_ns.Platform.{Platform}
use event_driven_ns.World.{World}
use Prim.Native.String.{◌++◌ as append}
use event_driven_ns.Config.{Config, load, get_env, default_database_url}
use event_driven_ns.Config.Load.{load-brokers}
use event_driven_ns.Http.Handlers.{code, panicked}
use event_driven_ns.Http.Monitoring.Ready.{ready_code, readiness-some}
use event_driven_ns.Http.Monitoring.{readiness}
use event_driven_ns.Http.Router.{new_router}
use event_driven_ns.Program.Startup.{
  Outside, Outcome, exits, serves, ApiProcess, Line, new_connection, connected, start_api,
  run_migrations, api_process, listen,
}

-- The process serves.
abbrev pub IsServing : {A : Type 0} → Outcome A → Type 0
IsServing exits = ⊥
IsServing (serves a lines) = Unit

-- What must not fail: the logger, the connection and the ping of the database that the environment
-- names, and the server on the port that it names.
pub record IsConnected (o : Outside) : Type 0 where
  pub logger : o.logger_error ≡ none
  pub connection : o.connect_error (get_env o.env "DATABASE_URL" default_database_url) ≡ none
  pub ping : o.ping_error ≡ none
  pub listening : o.listen_error (append ":" (get_env o.env "APP_PORT" "8080")) ≡ none

start_api-IsServing :
    (o : Outside) (now : Time) (w : World) → IsConnected o → IsServing (start_api o now w)
unfolding start_api connected listen new_connection load api_process
start_api-IsServing o now w c = ground (arith, c.logger, c.connection, c.ping, c.listening)

start_api-IsConnected :
    (o : Outside) (now : Time) (w : World) → IsServing (start_api o now w) → IsConnected o
unfolding start_api connected listen new_connection load api_process
start_api-IsConnected o now w h = record {
  logger = ground arith;
  connection = ground arith;
  ping = ground arith;
  listening = ground arith;
}

-- The API serves exactly when zap gives a logger, the database of DATABASE_URL takes a connection and
-- answers a ping, and the server listens on APP_PORT, whatever the tracer and the migrations answer.
pub start_api-serves :
    (o : Outside) (now : Time) (w : World) → IsServing (start_api o now w) ↔ IsConnected o
start_api-serves o now w = (start_api-IsConnected o now w, start_api-IsServing o now w)

connected-serves :
    {A : Type 0} (o : Outside) (name : String) (later : List Line) (process : Config → A) (a : A)
    (lines : List Line)
    → connected o name later process ≡ serves a lines
    → process (load o.env) ≡ a
unfolding connected
connected-serves o name later process a lines h = ground arith

api_process-brokers :
    (o : Outside) (now : Time) (w : World) → IsSome (api_process now w (load o.env)).api.brokers
unfolding api_process new_router
api_process-brokers o now w = (load-brokers o.env).0

listen-serves :
    (o : Outside) (r : Outcome ApiProcess) (a : ApiProcess) (lines : List Line)
    → listen o r ≡ serves a lines
    → r ≡ serves a lines
unfolding listen
listen-serves o exits a lines h = h
listen-serves o (serves b more) a lines h = ground arith

-- The brokers of an API that serves are those of its environment.
start_api-brokers :
    (o : Outside) (now : Time) (w : World) (a : ApiProcess) (lines : List Line)
    → start_api o now w ≡ serves a lines
    → IsSome a.api.brokers
unfolding start_api
start_api-brokers o now w a lines h =
    subst (λ b. IsSome b.api.brokers)
      (connected-serves o "event-driven-ns" (run_migrations o) (api_process now w) a lines
        (listen-serves o _ a lines h))
      (api_process-brokers o now w)

-- An API that serves, in whatever environment it started, answers its readiness check by 200 when the
-- database answers and the first broker takes a connection and by 503 otherwise, in any later state,
-- and never panics.
pub start_api-ready :
    ⦃p : Platform⦄ (o : Outside) (now : Time) (w : World) (a : ApiProcess) (lines : List Line)
    → start_api o now w ≡ serves a lines
    → (v : World)
    → (code (readiness a.api.brokers v).0 ≡ ready_code a.api.brokers v)
      × ((readiness a.api.brokers v).0 ≢ panicked)
start_api-ready o now w a lines h v =
    readiness-some a.api.brokers v (start_api-brokers o now w a lines h)
