-- ===== src/Postgres.antt =====
-- internal/adapter/postgres: the statements of the repositories on the tables of migrations/.
pub mod Table
pub mod Driver
pub mod Rows
pub mod Healthy
pub mod Notifications
pub mod Templates
pub mod Idempotency
pub mod Cancel
pub mod Atomic
pub mod Passing
pub mod Page
pub mod Metrics
pub mod Columns
