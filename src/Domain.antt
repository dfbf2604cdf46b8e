-- ===== src/Domain.antt =====
-- internal/domain: the entities, their validation and the errors.
pub mod Error
pub mod Channel
pub mod Priority
pub mod Status
pub mod Regex
pub mod Validation
pub mod Notification
pub mod Template
