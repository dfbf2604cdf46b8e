-- ===== src/Http/Monitoring/Ready.antt =====
-- The readiness check of internal/adapter/http/health_handler.go with some broker.
use event_driven_ns.Prelude.{
  ℕ, List, [], ◌∷◌, String, ◌≡◌, ◌≢◌, arith, is_some, ◌||◌, if◌then◌else◌,
}
use event_driven_ns.Prelude.Split.{IsSome}
use event_driven_ns.Platform.{Platform}
use event_driven_ns.World.{World, tick}
use event_driven_ns.Http.Handlers.{code, panicked}
use event_driven_ns.Http.Monitoring.{broker_address, check_broker, readiness}

-- The first broker, as it is dialled.
unfoldable pub dialled : List String → String
unfolding broker_address
dialled [] = ""
dialled (broker ∷ brokers) = broker_address broker

module _ ⦃p : Platform⦄ where
  -- The code that the state of the database and of the first broker calls for.
  unfoldable pub ready_code : List String → World → ℕ
  unfolding dialled
  ready_code brokers w =
      if is_some (p.fault w.step) || is_some (p.dial_error (tick w).step (dialled brokers))
      then 503
      else 200

  pub readiness-some :
      (brokers : List String) (w : World)
      → IsSome brokers
      → (code (readiness brokers w).0 ≡ ready_code brokers w) × ((readiness brokers w).0 ≢ panicked)
  unfolding readiness check_broker ready_code dialled
  readiness-some [] w h = absurd h
  readiness-some (broker ∷ brokers) w h = ground arith
