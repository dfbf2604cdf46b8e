-- ===== src/Tests/Delay.antt =====
-- Delays of the consumer.
use event_driven_ns.Prelude.{◌≡◌, refl}
use event_driven_ns.Prelude.Int.{negsuc, ◌+ℤ◌}
use event_driven_ns.Queue.Delay.{retry_delay_for_attempt}

-- The product wraps around at attempt 34.
negative_delay : retry_delay_for_attempt 34 0 ≡ negsuc 1266874889709551615
unfolding retry_delay_for_attempt ◌+ℤ◌
negative_delay = refl
