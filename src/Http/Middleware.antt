-- ===== src/Http/Middleware.antt =====
-- internal/adapter/http/middleware: correlation.go and logging.go, and the handler that RateLimit of
-- ratelimit.go returns.
use event_driven_ns.Prelude.{ℕ, [], ◌∷◌, ◌++◌, List, none, String, str_eq, if◌then◌else◌}
use event_driven_ns.Domain.Notification.{Time}
use event_driven_ns.Platform.{Platform}
use event_driven_ns.World.{World, tick}
use event_driven_ns.Logger.{Context, with_correlation_id, correlation_id_from_context}
use event_driven_ns.Http.RateLimit.{RateLimiter, allow}
use event_driven_ns.Http.Handlers.{Reply, failed, panicked, code}

-- A line of the log, without the latency, the client's address and the identifiers of the trace.
pub record LogEntry : Type 0 where
  pub method : String
  pub path : String
  pub status : ℕ
  pub correlation_id : String

-- The context of the request for the handlers after it; the same identifier is sent back as a header.
unfoldable pub correlation : ⦃p : Platform⦄ → String → World → Context × World
unfolding with_correlation_id
correlation ⦃p = p⦄ header w =
    if str_eq header ""
    then (
      with_correlation_id (record { correlation_id = none }) (p.uuid_string (p.fresh w.step)),
      tick w,
    )
    else (with_correlation_id (record { correlation_id = none }) header, w)

module _ {A S : Type 0} where
  -- `RateLimit`: the rest of the chain runs when the limiter allows it.
  unfoldable pub limited : Time → (S → Reply A × S) → S → RateLimiter → Reply A × S × RateLimiter
  unfolding allow
  limited now next s limiter =
      let (ok, limiter') = allow limiter now in
      let (r, s') = next s in
      if ok then (r, s', limiter') else (failed 429 "rate limit exceeded", s, limiter')

-- `Logging`, after `c.Next()`: the code is the one that was written. A panic unwinds the handler before
-- it logs, up to `Recovery`.
unfoldable pub logged :
    {A : Type 0} → String → String → Context → Reply A → List LogEntry → List LogEntry
unfolding correlation_id_from_context
logged method path ctx panicked log = log
logged method path ctx reply log =
    log
    ++ record {
      method = method;
      path = path;
      status = code reply;
      correlation_id = correlation_id_from_context ctx;
    }
      ∷ []
