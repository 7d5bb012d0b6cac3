-- ===== src/Budgets.antt =====
-- service/budget.go and repository/budget.go: the budgets of a user and what is left of them.
mod Defs
mod Lists
pub mod Scopes
pub mod Percentages
unfoldable pub use Defs.*
unfoldable pub use Lists.*
