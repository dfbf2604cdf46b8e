-- ===== src/Tests.antt =====
-- Runs of the model on concrete worlds, and instances of the theorems.
mod Breakers
mod Final
mod Fixtures
mod Domain
mod Delivery
mod Requests
mod Http
mod Repeat
mod RateLimit
mod Scheduler
mod Metrics
mod Sockets
mod Router
mod Created
mod Delay
