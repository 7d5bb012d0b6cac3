-- ===== src/Accounts.antt =====
-- backend/internal/service/account.go and repository/account.go: the accounts of a user.
mod Defs
pub mod Summary
pub mod Opening
pub mod Closing
unfoldable pub use Defs.*
