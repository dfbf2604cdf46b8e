-- ===== src/Config/Load.antt =====
-- What pkg/config/config.go makes of an environment.
use event_driven_ns.Prelude.{
  ℕ, ◌<◌, ◌^◌, ◌≡◌, refl, ap, ◌∙◌, String, eq_iff, arith, All, some, none,
}
use event_driven_ns.Prelude.Int.{ℤ, pos}
use event_driven_ns.Prelude.Decimal.{itoa}
use event_driven_ns.Prelude.Atoi.{atoi, atoi-itoa}
use event_driven_ns.Prelude.Split.{join, IsSome, IsFree, split-IsSome, split-IsFree, join-split}
use event_driven_ns.Config.{Environment, get_env, get_env_int, load}

-- The brokers are at least one, so that the check of readiness may take the first; none has a comma;
-- joined by commas they are the value of KAFKA_BROKERS, or its default.
pub load-brokers :
    (env : Environment)
    → IsSome (load env).kafka_brokers
      × All (IsFree ",") (load env).kafka_brokers
      × (join "," (load env).kafka_brokers ≡ get_env env "KAFKA_BROKERS" "localhost:9092")
unfolding load
load-brokers env =
    let value = get_env env "KAFKA_BROKERS" "localhost:9092" in
    (split-IsSome "," value, split-IsFree "," value, join-split "," value)

atoi-empty : atoi "" ≡ none
unfolding atoi
atoi-empty = refl

get_env_int-some :
    (env : Environment) (key : String) (fallback n : ℤ)
    → atoi (env key) ≡ some n
    → get_env_int env key fallback ≡ n
unfolding get_env_int
get_env_int-some env key fallback n h = ground (arith, eq_iff (env key) "", atoi-empty)

-- A limit below 2⁶³ that is written in decimal is the limit that is loaded.
pub load-rate_limit :
    (env : Environment) (n : ℕ)
    → env "RATE_LIMIT_PER_CHANNEL" ≡ itoa n
    → n < 2 ^ 63
    → (load env).rate_limit_per_channel ≡ pos n
unfolding load
load-rate_limit env n h b =
    get_env_int-some env "RATE_LIMIT_PER_CHANNEL" (pos 100) (pos n) (ap atoi h ∙ atoi-itoa n b)
