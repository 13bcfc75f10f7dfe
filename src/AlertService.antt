-- ===== src/AlertService.antt =====
-- services/alert_service: alerts from Kafka become notifications on users' WebSockets.
pub mod Registry
pub mod Notifications
pub mod Consumer
pub mod Pusher
pub mod PriceResolution
