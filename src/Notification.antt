-- ===== src/Notification.antt =====
-- apps/notification-service: the alert rules and their checks, the notifications sent for them,
-- and the pages of both histories.
pub mod Paging
pub mod Dispatch
pub mod Alerts
