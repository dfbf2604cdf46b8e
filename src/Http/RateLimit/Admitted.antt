-- ===== src/Http/RateLimit/Admitted.antt =====
-- How many requests the limiter lets through.
use event_driven_ns.Prelude.{
  ℕ, ◌+◌, ◌-◌, ◌*◌, ◌≤◌, true, List, [], ◌∷◌, ◌≡◌, refl, arith, leb, Bool-cases, inl, inr, leb→le,
  le→leb,
}
use event_driven_ns.Domain.Notification.{Time}
use event_driven_ns.Http.RateLimit.{token, RateLimiter, refilled, allow, admitted}

-- The times do not go back, and none is after the end.
abbrev pub IsClock : Time → List Time → Time → Type 0
IsClock start [] end = start ≤ end
IsClock start (now ∷ times) end = (start ≤ now) × IsClock now times end

module _ (rl : RateLimiter) (now : Time) where
  refilled-le : refilled rl now ≤ rl.tokens + (now - rl.last_refill) * rl.refill_rate
  unfolding refilled
  refilled-le = ground arith

clock_le : (start : Time) (times : List Time) (end : Time) → IsClock start times end → start ≤ end
clock_le start [] end h = h
clock_le start (now ∷ times) end h = omega (arith, clock_le now times end h.1)

split : (r a b c : ℕ) → a ≤ b → b ≤ c → (b - a) * r + (c - b) * r ≡ (c - a) * r
split r a b c h k = grind arith

-- From any state of the bucket, and with a clock that does not go back, the requests that are let
-- through up to some time are paid for by the tokens in the bucket and those added since.
pub admitted_le :
    (rl : RateLimiter) (times : List Time) (end : Time)
    → IsClock rl.last_refill times end
    → admitted rl times * token ≤ rl.tokens + (end - rl.last_refill) * rl.refill_rate
unfolding admitted allow
admitted_le rl [] end h = omega arith
admitted_le rl (now ∷ times) end (h, k) =
    let later = clock_le now times end k in
    let parts = split rl.refill_rate rl.last_refill now end h later in
    let r = refilled rl now in
    let cap = refilled-le rl now in
    elim (Bool-cases (leb token r)) [
      | inl e ↦
          let paid = leb→le token r e in
          let rest =
            admitted_le (record rl { tokens = r - token; last_refill = now }) times end k in
          rw e (omega arith)
      | inr e ↦
          let rest = admitted_le (record rl { tokens = r; last_refill = now }) times end k in
          rw e (omega arith)
    ]

refilled_idle :
    (rl : RateLimiter) (now : Time)
    → 1 ≤ rl.refill_rate
    → rl.max_tokens ≡ rl.refill_rate * token
    → rl.last_refill + token ≤ now
    → token ≤ refilled rl now
unfolding refilled
refilled_idle rl now some_rate full idle = grind arith

-- A request that comes a second or more after the last one is let through, if the bucket has room for
-- a second of tokens and the rate is 1 or more.
pub idle_admitted :
    (rl : RateLimiter) (now : Time)
    → 1 ≤ rl.refill_rate
    → rl.max_tokens ≡ rl.refill_rate * token
    → rl.last_refill + token ≤ now
    → (allow rl now).0 ≡ true
unfolding allow
idle_admitted rl now some_rate full idle =
    rw (le→leb token (refilled rl now) (refilled_idle rl now some_rate full idle)) refl
