-- ===== src/Queue/Delay.antt =====
-- The delays of internal/adapter/queue/consumer.go, in nanoseconds. The jitter that math/rand gives is
-- an argument. `time.Duration` is an int64: a product wraps around.
use event_driven_ns.Prelude.{ℕ, ◌+◌, ◌-◌, ◌*◌, ◌^◌, ◌%◌, ◌≤◌, ◌<◌, ◌≡◌, arith, ltb, if◌then◌else◌}
use native.Mathlib.Nat.{one-le-pow, pow-le-pow_right}
use event_driven_ns.Prelude.Int.{ℤ, pos, negsuc, ◌+ℤ◌, ◌≤ℤ◌}

abbrev millisecond : ℕ
millisecond = 1000000

abbrev pub second : ℕ
second = 1000000000

-- A whole number as an int64.
abbrev int64 : ℕ → ℤ
int64 n = let m = n % 2 ^ 64 in if ltb m (2 ^ 63) then pos m else negsuc (2 ^ 64 - m - 1)

-- `if delay > maxDelay { delay = maxDelay }`.
abbrev capped : ℤ → ℕ → ℤ
capped (pos d) max_delay = if ltb max_delay d then pos max_delay else pos d
capped (negsuc d) max_delay = negsuc d

unfoldable pub retry_delay : ℕ → ℤ
retry_delay jitter = capped (pos (2 * second + jitter * millisecond)) (30 * second)

-- For an attempt below 63, where 2 to its power is an int64.
unfoldable pub retry_delay_for_attempt : ℕ → ℕ → ℤ
retry_delay_for_attempt attempt jitter =
    capped (int64 (2 ^ attempt * second) +ℤ pos (jitter * millisecond)) (5 * 60 * second)

-- With less than a second of jitter, the delay before a message is published again is between two and
-- three seconds: its cap of 30 seconds is never reached.
retry_delay-bounds :
    (jitter : ℕ)
    → jitter < 1000
    → (pos (2 * second) ≤ℤ retry_delay jitter) × (retry_delay jitter ≤ℤ pos (3 * second))
unfolding retry_delay
retry_delay-bounds jitter h = (ground arith, ground arith)

-- A power of two that fits is small enough to be multiplied.
power : (attempt : ℕ) → attempt ≤ 33 → (1 ≤ 2 ^ attempt) × (2 ^ attempt ≤ 8589934592)
power attempt h = (one-le-pow attempt 2 (omega arith), pow-le-pow_right (omega arith) h)

int64_small : (n : ℕ) → n < 9223372036854775808 → int64 n ≡ pos n
int64_small n h = ground arith

capped-bounds :
    (d : ℕ)
    → second ≤ d
    → (pos second ≤ℤ capped (pos d) (5 * 60 * second))
      × (capped (pos d) (5 * 60 * second) ≤ℤ pos (5 * 60 * second))
capped-bounds d h = (ground arith, ground arith)

plus_pos : (a b : ℕ) → pos a +ℤ pos b ≡ pos (a + b)
unfolding ◌+ℤ◌
plus_pos a b = ground arith

-- Up to attempt 33, the delay of an attempt is between one second and five minutes.
retry_delay_for_attempt-bounds :
    (attempt jitter : ℕ)
    → attempt ≤ 33
    → (pos second ≤ℤ retry_delay_for_attempt attempt jitter)
      × (retry_delay_for_attempt attempt jitter ≤ℤ pos (5 * 60 * second))
unfolding retry_delay_for_attempt
retry_delay_for_attempt-bounds attempt jitter h =
    let (low, high) = power attempt h in
    let n = 2 ^ attempt * second in
    rw (int64_small n (omega arith), plus_pos n (jitter * millisecond))
      (capped-bounds (n + jitter * millisecond) (omega arith))
