-- ===== src/Tests/RateLimit.antt =====
-- A limiter of two requests in a second.
use event_driven_ns.Prelude.{◌+◌, ◌-◌, ◌*◌, ◌≤◌, [], ◌∷◌, true, ◌≡◌, refl, arith}
use event_driven_ns.Http.RateLimit.{token, RateLimiter, new_rate_limiter, allow, admitted}
use event_driven_ns.Http.RateLimit.Admitted.{admitted_le, idle_admitted}

abbrev limiter : RateLimiter
limiter = record { tokens = 2000000000; max_tokens = 2000000000; refill_rate = 2; last_refill = 5 }

new_limiter : new_rate_limiter 2 5 ≡ limiter
unfolding new_rate_limiter
new_limiter = refl

-- Four requests at once: two are let through.
burst : admitted limiter (6 ∷ 7 ∷ 8 ∷ 9 ∷ []) ≡ 2
unfolding admitted
burst = refl

admitted_le_example :
    admitted limiter (6 ∷ 7 ∷ 8 ∷ 9 ∷ []) * token
    ≤ limiter.tokens + (10 - limiter.last_refill) * limiter.refill_rate
admitted_le_example =
    admitted_le limiter (6 ∷ 7 ∷ 8 ∷ 9 ∷ []) 10
      (omega arith, (omega arith, (omega arith, (omega arith, omega arith))))

abbrev used_up : RateLimiter
used_up = record limiter { tokens = 0 }

idle_admitted_example : (allow used_up 2000000000).0 ≡ true
idle_admitted_example = idle_admitted used_up 2000000000 (omega arith) refl (omega arith)
