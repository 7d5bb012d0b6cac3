-- ===== src/Transactions.antt =====
-- backend/internal/service/transaction.go and transaction_rollback.go: creating, updating and
-- deleting the transactions of a user.
mod Defs
mod Rollback
mod Delete
pub mod NetWorth
pub mod Deletion
unfoldable pub use Defs.*
unfoldable pub use Rollback.*
unfoldable pub use Delete.*
