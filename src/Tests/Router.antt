-- ===== src/Tests/Router.antt =====
-- Requests through the router.
use event_driven_ns.Prelude.{
  eq_iff, List, Option, str_eq, if◌then◌else◌, ◌+◌, ◌-◌, ◌*◌, ◌≤◌, ◌++◌, [], ◌∷◌, some, none,
  String, true, ◌≡◌, ◌≢◌, ◌↔◌, refl, arith,
}
use event_driven_ns.Ws.Hub.{new_hub}
use event_driven_ns.Http.RateLimit.{token, new_rate_limiter}
use event_driven_ns.Http.Handlers.{code, panicked}
use event_driven_ns.Http.Monitoring.{readiness}
use event_driven_ns.Http.Monitoring.Ready.{ready_code}
use event_driven_ns.Http.Router.{Api, live, metrics, list_templates, new_router, serve, is_limited}
use event_driven_ns.Http.Router.Serve.{
  Call, is_refused, serve-code, answered, answered_le, serve-log, line,
}
use event_driven_ns.Config.{load}
use event_driven_ns.Program.Startup.{
  Outside, migrations_applied, start_api, serves, applied, api_process,
}
use event_driven_ns.Program.Serving.{IsServing, IsConnected, start_api-serves, start_api-ready}
use event_driven_ns.Tests.Fixtures.{platform, queued}

-- The API at time 5, and with a limiter that has no token left.
abbrev fresh_api : Api
fresh_api = new_router 5 queued ("kafka" ∷ []) new_hub

abbrev empty_api : Api
empty_api = record fresh_api { limiter = record (new_rate_limiter 200 5) { tokens = 0 } }

serve-code_example :
    (code (serve ⦃p = platform 200 none⦄ 6 "me" list_templates empty_api).0 ≡ 429)
    ↔ (is_refused 6 list_templates empty_api ≡ true)
serve-code_example = serve-code ⦃p = platform 200 none⦄ 6 "me" list_templates empty_api

abbrev two_calls : List Call
two_calls = (6, "me", list_templates) ∷ (7, "you", metrics) ∷ []

answered_le_example :
    answered ⦃p = platform 200 none⦄ two_calls fresh_api * token
    ≤ fresh_api.limiter.tokens + (8 - fresh_api.limiter.last_refill) * fresh_api.limiter.refill_rate
unfolding is_limited new_router
answered_le_example =
    answered_le ⦃p = platform 200 none⦄ two_calls 8 fresh_api (refl, (refl, tt))
      (omega arith, (omega arith, omega arith))

serve-log_example :
    let (r, api') = serve ⦃p = platform 200 none⦄ 6 "me" live fresh_api in
    ((r ≢ panicked → api'.log ≡ [] ++ line "me" live r ∷ []) × (r ≡ panicked → api'.log ≡ []))
unfolding new_router
serve-log_example =
    serve-log ⦃p = platform 200 none⦄ 6 "me" live fresh_api (λ h. ground (arith, eq_iff "me" ""))

-- A start at which nothing fails, with the defaults.
abbrev outside : Outside
outside = record {
  env = λ key. "";
  logger_error = none;
  exporter_error = λ endpoint. none;
  resource_error = none;
  connect_error = λ url. none;
  ping_error = none;
  listen_error = λ addr. none;
  migrator_error = none;
  up = applied;
}

outside-IsConnected : IsConnected outside
outside-IsConnected = record { logger = refl; connection = refl; ping = refl; listening = refl }

start_api-serves_example : IsServing (start_api outside 5 queued) ↔ IsConnected outside
start_api-serves_example = start_api-serves outside 5 queued

started :
    start_api outside 5 queued
    ≡ serves (api_process 5 queued (load outside.env)) (migrations_applied ∷ [])
unfolding start_api
started = refl

start_api-ready_example :
    let brokers = (api_process 5 queued (load outside.env)).api.brokers in
    (code (readiness ⦃p = platform 200 none⦄ brokers queued).0
      ≡ ready_code ⦃p = platform 200 none⦄ brokers queued)
    × ((readiness ⦃p = platform 200 none⦄ brokers queued).0 ≢ panicked)
start_api-ready_example =
    start_api-ready ⦃p = platform 200 none⦄ outside 5 queued
      (api_process 5 queued (load outside.env)) (migrations_applied ∷ []) started queued

-- A consumer whose second reader and writer fail to close.
abbrev closing : String → Option String
closing topic = if str_eq topic "notifications.normal" then some "late" else none
