-- ===== src/Program/Final.antt =====
-- A notification that is cancelled or delivered: what the two processes do to it.
pub mod Store
pub mod Selected
pub mod Delivery
pub mod Requests
pub mod Statements
pub mod Kept
