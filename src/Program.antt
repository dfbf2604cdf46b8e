-- ===== src/Program.antt =====
-- cmd/api and cmd/worker: the two processes on one database and one broker, as steps on the state.
pub mod Sound
pub mod Store
pub mod Queries
pub mod Delivery
pub mod Requests
pub mod New
pub mod Batches
pub mod Final
pub mod Reachable
pub mod Sockets
pub mod Startup
pub mod Serving
