-- ===== src/Worker.antt =====
-- cmd/worker/main.go: the consumer with `DeliveryService.ProcessDelivery` for its handler.
pub mod Drain
pub mod Poison
pub mod Created
use event_driven_ns.Prelude.{ℕ, String}
use event_driven_ns.Platform.{Platform}
use event_driven_ns.World.{World}
use event_driven_ns.App.DeliveryService.{process_delivery}
use event_driven_ns.Queue.Consumer.{consume_rounds}

-- Rounds of the goroutine that reads a topic.
abbrev pub work : ⦃p : Platform⦄ → ℕ → String → World → World
work n topic w = consume_rounds n process_delivery topic w
