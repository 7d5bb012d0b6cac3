-- ===== src/Reminders.antt =====
-- service/reminder.go: the reminders of debts and the payments on them.
mod Defs
mod Payment
pub mod Split
pub mod Rows
pub mod NetWorth
pub mod Steps
pub mod Reads
pub mod Recorded
pub mod Interest
pub mod Refund
unfoldable pub use Defs.*
unfoldable pub use Payment.*
