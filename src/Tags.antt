-- ===== src/Tags.antt =====
-- Tag names of a transaction and the use counts of tags: `transactionTagNames`,
-- `transactionTagNameDiff` and `uniqueSortedStrings` of backend/internal/service/transaction.go,
-- and the counters of backend/internal/repository/tag.go.
mod Defs
pub mod Names
pub mod Counts
unfoldable pub use Defs.*
