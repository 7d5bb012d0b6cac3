-- ===== src/Backups.antt =====
-- service/backup_scheduler.go: the settings of the automatic backup, its runs and its retention.
mod Defs
mod Retention
pub mod Settings
pub mod Sorting
pub mod Pruning
pub mod Files
pub mod Runs
unfoldable pub use Defs.*
unfoldable pub use Retention.*
