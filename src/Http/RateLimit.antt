-- ===== src/Http/RateLimit.antt =====
-- internal/adapter/http/middleware/ratelimit.go. The floats `tokens` and `maxTokens` are counted
-- here in units of 10⁻⁹ token and a time is in nanoseconds, so that a refill is a product of whole
-- numbers for a whole rate, with none of the rounding of float64. The mutex makes `allow` one step,
-- and the clock that it reads is monotonic.
pub mod Admitted
use event_driven_ns.Prelude.{
  ℕ, ◌+◌, ◌-◌, ◌*◌, Bool, true, false, List, [], ◌∷◌, min, leb, if◌then◌else◌,
}
use event_driven_ns.Domain.Notification.{Time}

-- One token.
abbrev pub token : ℕ
token = 1000000000

pub record RateLimiter : Type 0 where
  pub tokens : ℕ
  pub max_tokens : ℕ
  pub refill_rate : ℕ
  pub last_refill : Time

unfoldable pub new_rate_limiter : ℕ → Time → RateLimiter
new_rate_limiter requests_per_second now = record {
  tokens = requests_per_second * token;
  max_tokens = requests_per_second * token;
  refill_rate = requests_per_second;
  last_refill = now;
}

-- The tokens after the refill.
unfoldable pub refilled : RateLimiter → Time → ℕ
refilled rl now = min (rl.tokens + (now - rl.last_refill) * rl.refill_rate) rl.max_tokens

unfoldable pub allow : RateLimiter → Time → Bool × RateLimiter
unfolding refilled
allow rl now =
    if leb token (refilled rl now)
    then (true, record rl { tokens = refilled rl now - token; last_refill = now })
    else (false, record rl { tokens = refilled rl now; last_refill = now })

-- Requests at these times: those that are let through.
unfoldable pub admitted : RateLimiter → List Time → ℕ
unfolding allow
admitted rl [] = 0
admitted rl (now ∷ times) =
    let (ok, rl') = allow rl now in let rest = admitted rl' times in if ok then ℕ.suc rest else rest
