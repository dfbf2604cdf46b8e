-- ===== src/App.antt =====
-- internal/app: the services, as cmd/api/main.go and cmd/worker/main.go put them together.
pub mod NotificationService
pub mod DeliveryService
pub mod Scheduler
pub mod TemplateService
pub mod Metrics
