-- ===== src/Http/Router/Serve.antt =====
-- Requests through the middleware of internal/adapter/http/router.go.
use event_driven_ns.Prelude.{
  suc, ℕ, ◌+◌, ◌-◌, ◌*◌, ◌≤◌, Bool, true, not, ◌&&◌, List, [], ◌∷◌, ◌++◌, String, eq_iff, none, ap,
  ◌∙◌, ◌≡◌, ◌≢◌, ◌↔◌, refl, arith, All, map, ◌==◌, if◌then◌else◌,
}
use event_driven_ns.Domain.Notification.{Time}
use event_driven_ns.Platform.{Platform}
use event_driven_ns.World.{World}
use event_driven_ns.Logger.{Context, correlation_id_from_context, with_correlation_id}
use event_driven_ns.Http.RateLimit.{token, allow, admitted}
use event_driven_ns.Http.RateLimit.Admitted.{IsClock, admitted_le}
use event_driven_ns.Http.Handlers.{Reply, json, failed, panicked, code}
use event_driven_ns.Http.Middleware.{LogEntry, correlation, limited, logged}
use event_driven_ns.Http.Router.{Request, Body, Api, serve, is_limited, method, path}
use event_driven_ns.Http.Router.Codes.{handle-IsServed}

-- The request is of the group `v1`, and the limiter has no token for it.
unfoldable pub is_refused : Time → Request → Api → Bool
is_refused now request api = is_limited request && not (allow api.limiter now).0

-- A request at a time of the limiter's clock, with the header for its correlation.
abbrev pub Call : Type 0
Call = Time × String × Request

-- The context of a request with this identifier.
unfoldable carried : String → Context
unfolding with_correlation_id
carried correlation_id = with_correlation_id (record { correlation_id = none }) correlation_id

-- The line of a request that was answered.
unfoldable pub line : String → Request → Reply Body → LogEntry
line correlation_id request r = record {
  method = method request;
  path = path request;
  status = code r;
  correlation_id = correlation_id;
}

not_panicked_json : {n : ℕ} {a : Body} → ¬ (json n a ≡ panicked)
not_panicked_json h = cc

not_panicked_failed : {n : ℕ} {text : String} → ¬ (◌≡◌ {A = Reply Body} (failed n text) panicked)
not_panicked_failed h = cc

module _ ⦃p : Platform⦄ where
  -- The state after the correlation was set.
  abbrev pub correlated : String → Api → World
  correlated header api = (correlation header api.world).1

  -- 429 is answered exactly to a request of the group `v1` that the limiter has no token for.
  pub serve-code :
      (now : Time) (header : String) (request : Request) (api : Api)
      → (code (serve now header request api).0 ≡ 429) ↔ (is_refused now request api ≡ true)
  unfolding serve limited is_refused
  serve-code now header request api =
      let h = handle-IsServed api.brokers request (correlated header api, api.hub) in
      ground (arith, h.code_differs)

  -- The limiter after a request of the group.
  serve-limiter :
      (now : Time) (header : String) (request : Request) (api : Api)
      → is_limited request ≡ true
      → (serve now header request api).1.limiter ≡ (allow api.limiter now).1
  unfolding serve limited
  serve-limiter now header request api h = ground arith

  -- The requests that are answered with a code other than 429.
  unfoldable pub answered : List Call → Api → ℕ
  answered [] api = 0
  answered ((now, header, request) ∷ calls) api =
      let (r, api') = serve now header request api in
      let rest = answered calls api' in if code r == 429 then rest else suc rest

  refused_code :
      (now : Time) (header : String) (request : Request) (api : Api)
      → is_limited request ≡ true
      → (code (serve now header request api).0 == 429) ≡ not (allow api.limiter now).0
  unfolding is_refused
  refused_code now header request api h = ground (arith, serve-code now header request api)

  answered-admitted :
      (calls : List Call) (api : Api)
      → All (λ (now, header, request). is_limited request ≡ true) calls
      → answered calls api ≡ admitted api.limiter (map (λ (now, header, request). now) calls)
  unfolding answered admitted
  answered-admitted [] api h = refl
  answered-admitted ((now, header, request) ∷ calls) api (h, hs) =
      let ih : answered calls (serve now header request api).1
          ≡ admitted (allow api.limiter now).1 (map (λ (t, g, r). t) calls) =
        answered-admitted calls (serve now header request api).1 hs
        ∙ ap (λ l. admitted l (map (λ (t, g, r). t) calls))
            (serve-limiter now header request api h) in
      ground (arith, refused_code now header request api h, ih)

  -- In any state of the API, and with a clock that does not go back, the requests of the group `v1`
  -- that are answered other than by 429 are paid for by the tokens of the limiter and those added up
  -- to the end.
  pub answered_le :
      (calls : List Call) (end : Time) (api : Api)
      → All (λ (now, header, request). is_limited request ≡ true) calls
      → IsClock api.limiter.last_refill (map (λ (now, header, request). now) calls) end
      → answered calls api * token
        ≤ api.limiter.tokens + (end - api.limiter.last_refill) * api.limiter.refill_rate
  answered_le calls end api h k =
      rw (answered-admitted calls api h)
        (admitted_le api.limiter (map (λ (now, header, request). now) calls) end k)

  logged_lem :
      (correlation_id : String) (request : Request) (r : Reply Body) (log : List LogEntry)
      → let log' = logged (method request) (path request) (carried correlation_id) r log in
        ((r ≢ panicked → log' ≡ log ++ line correlation_id request r ∷ [])
          × (r ≡ panicked → log' ≡ log))
  unfolding logged line carried correlation_id_from_context with_correlation_id
  logged_lem id request (json n a) log = (λ h. refl, λ h. absurd (not_panicked_json h))
  logged_lem id request (failed n text) log = (λ h. refl, λ h. absurd (not_panicked_failed h))
  logged_lem id request panicked log = (λ h. absurd (h refl), λ h. refl)

  correlation-header :
      (header : String) (w : World) → header ≢ "" → (correlation header w).0 ≡ carried header
  unfolding correlation carried
  correlation-header header w h = ground (arith, eq_iff header "")

  serve-logged :
      (now : Time) (header : String) (request : Request) (api : Api)
      → header ≢ ""
      → (serve now header request api).1.log
        ≡ logged
            (method request)
            (path request)
            (carried header)
            (serve now header request api).0
            api.log
  unfolding serve carried
  serve-logged now header request api h =
      ap
        (λ ctx. logged (method request) (path request) ctx (serve now header request api).0 api.log)
        (correlation-header header api.world h)

  -- A request with a correlation identifier adds one line to the log, with this identifier and with the
  -- code of the answer, unless the handler panics: then nothing is logged.
  pub serve-log :
      (now : Time) (header : String) (request : Request) (api : Api)
      → header ≢ ""
      → let (r, api') = serve now header request api in
        ((r ≢ panicked → api'.log ≡ api.log ++ line header request r ∷ [])
          × (r ≡ panicked → api'.log ≡ api.log))
  serve-log now header request api h =
      rw (serve-logged now header request api h)
        (logged_lem header request (serve now header request api).0 api.log)
