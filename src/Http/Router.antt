-- ===== src/Http/Router.antt =====
-- internal/adapter/http/router.go: the routes, the middleware around them, and the group that is
-- limited. gin matches a request with a route and binds it; here a request is a route with its
-- arguments.
pub mod Codes
pub mod Serve
use Prim.Native.String.{◌++◌ as append}
use event_driven_ns.Prelude.{ℕ, Bool, true, false, List, String, if◌then◌else◌}
use event_driven_ns.Domain.Notification.{Time}
use event_driven_ns.Platform.{Platform}
use event_driven_ns.World.{World}
use event_driven_ns.Logger.{correlation_id_from_context}
use event_driven_ns.App.Metrics.{MetricsSnapshot}
use event_driven_ns.Ws.Hub.{Hub}
use event_driven_ns.Http.Request.{
  CreateNotificationRequest, ListNotificationsRequest, CreateTemplateRequest,
}
use event_driven_ns.Http.Response.{
  NotificationResponse, ListResponse, BatchResponse, CreateBatchResponse, TemplateResponse,
}
use event_driven_ns.Http.RateLimit.{RateLimiter, new_rate_limiter}
use event_driven_ns.Http.Handlers
use event_driven_ns.Http.Handlers.{Reply, Bound, Handled, json, failed, panicked}
use event_driven_ns.Http.Monitoring.{HealthReport, liveness, readiness, get_metrics, websocket}
use event_driven_ns.Http.Middleware.{LogEntry, correlation, limited, logged}

-- The routes. `openapi` and `swagger` are the two files of docs/.
pub data Request : Type 0 where
  live ready socket openapi swagger : Request
  create_notification : Bound CreateNotificationRequest → Request
  create_batch : Bound (List CreateNotificationRequest) → Request
  list_notifications : Bound ListNotificationsRequest → Request
  get_notification : String → Request
  cancel_notification : String → Request
  get_batch : String → Request
  create_template : Bound CreateTemplateRequest → Request
  list_templates : Request
  get_template : String → Request
  metrics : Request

-- The method and the path under which a route is registered.
unfoldable pub method : Request → String
method (create_notification r) = "POST"
method (create_batch rs) = "POST"
method (create_template r) = "POST"
method (cancel_notification id) = "PATCH"
method _ = "GET"

unfoldable pub path : Request → String
path live = "/health"
path ready = "/health/ready"
path socket = "/ws"
path openapi = "/swagger/openapi.yaml"
path swagger = "/swagger/"
path (create_notification r) = "/api/v1/notifications"
path (create_batch rs) = "/api/v1/notifications/batch"
path (list_notifications r) = "/api/v1/notifications"
path (get_notification id) = append "/api/v1/notifications/" id
path (cancel_notification id) = append "/api/v1/notifications/" (append id "/cancel")
path (get_batch id) = append "/api/v1/batches/" id
path (create_template r) = "/api/v1/templates"
path list_templates = "/api/v1/templates"
path (get_template id) = append "/api/v1/templates/" id
path metrics = "/api/v1/metrics"

-- The routes of the group `v1`.
unfoldable pub is_limited : Request → Bool
is_limited live = false
is_limited ready = false
is_limited socket = false
is_limited openapi = false
is_limited swagger = false
is_limited _ = true

-- The bodies of all answers.
pub data Body : Type 0 where
  notification : NotificationResponse → Body
  page : ListResponse → Body
  created_batch : CreateBatchResponse → Body
  batch : BatchResponse → Body
  template : TemplateResponse → Body
  templates : List TemplateResponse → Body
  snapshot : MetricsSnapshot → Body
  health : HealthReport → Body
  status : String → Body
  file : String → Body
  switched : Unit {0} → Body

-- What the handlers and the middleware of the API keep.
pub record Api : Type 0 where
  pub world : World
  pub brokers : List String
  pub hub : Hub
  pub limiter : RateLimiter
  pub log : List LogEntry

-- `NewRouter`, at the time when its limiter is made.
unfoldable pub new_router : Time → World → List String → Hub → Api
unfolding new_rate_limiter
new_router now w brokers hub = record {
  world = w;
  brokers = brokers;
  hub = hub;
  limiter = new_rate_limiter 200 now;
  log = List.[];
}

abbrev pub with_body : {A : Type 0} → (A → Body) → Reply A → Reply Body
with_body f (json n a) = json n (f a)
with_body f (failed n text) = failed n text
with_body f panicked = panicked

-- What a handler may change.
abbrev pub Shared : Type 0
Shared = World × Hub

-- A handler that works on the tables, the broker and the provider only.
abbrev pub on_world : {A : Type 0} → (A → Body) → Handled A → Shared → Reply Body × Shared
on_world f handler (w, hub) = let (r, w') = handler w in (with_body f r, (w', hub))

-- A route outside the group.
abbrev unlimited : {A S : Type 0} → (S → Reply A × S) → S → RateLimiter → Reply A × S × RateLimiter
unlimited next s limiter = let (r, s') = next s in (r, s', limiter)

module _ ⦃p : Platform⦄ where
  -- The handler of a route.
  unfoldable pub handle : List String → Request → Shared → Reply Body × Shared
  handle brokers live s = on_world health liveness s
  handle brokers ready s = on_world health (readiness brokers) s
  handle brokers socket (w, hub) =
      let (r, hub', w') = websocket w hub in (with_body switched r, (w', hub'))
  handle brokers openapi s = (json 200 (file "openapi.yaml"), s)
  handle brokers swagger s = (json 200 (file "swagger.html"), s)
  handle brokers (create_notification r) s = on_world notification (Handlers.create r) s
  handle brokers (create_batch rs) s = on_world created_batch (Handlers.create_batch rs) s
  handle brokers (list_notifications r) s = on_world page (Handlers.list r) s
  handle brokers (get_notification id) s = on_world notification (Handlers.get_by_id id) s
  handle brokers (cancel_notification id) s = on_world status (Handlers.cancel id) s
  handle brokers (get_batch id) s = on_world batch (Handlers.get_batch id) s
  handle brokers (create_template r) s = on_world template (Handlers.create_template r) s
  handle brokers list_templates s = on_world templates Handlers.list_templates s
  handle brokers (get_template id) s = on_world template (Handlers.get_template id) s
  handle brokers metrics s = on_world snapshot get_metrics s

  -- The chain of a request that reached its route: the correlation, the log around the rest, and in
  -- the group `v1` the limiter, which reads its clock at `now`.
  unfoldable pub serve : Time → String → Request → Api → Reply Body × Api
  unfolding handle correlation limited logged method path is_limited
  serve now header request api =
      let (ctx, w) = correlation header api.world in
      let next : Shared → Reply Body × Shared = handle api.brokers request in
      let (r, s, limiter) =
        if is_limited request
        then limited now next (w, api.hub) api.limiter
        else unlimited next (w, api.hub) api.limiter in
      (
        r,
        record api {
          world = s.0;
          hub = s.1;
          limiter = limiter;
          log = logged (method request) (path request) ctx r api.log;
        },
      )
