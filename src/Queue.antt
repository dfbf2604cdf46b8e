-- ===== src/Queue.antt =====
-- internal/adapter/queue: the producer and the consumer of Kafka messages.
pub mod Publisher
pub mod Consumer
pub mod Delay
