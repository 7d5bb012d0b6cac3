-- ===== src/Notifications.antt =====
-- service/notification_scheduler.go and repository/notification_log.go: the scheduled notifications.
mod Defs
mod Calendar
mod Checks
pub mod Schedule
pub mod DueDays
pub mod Once
unfoldable pub use Defs.*
unfoldable pub use Calendar.*
unfoldable pub use Checks.*
