-- ===== src/Balance.antt =====
-- backend/internal/service/transaction_balance.go: how a transaction moves account balances.
mod Defs
mod Locks
pub mod Mutation
pub mod NetWorth
pub mod Conservation
pub mod Restore
pub mod Legs
pub mod LockOrder
pub mod Undo
pub mod Revert
pub mod Frame
unfoldable pub use Defs.*
unfoldable pub use Locks.*
