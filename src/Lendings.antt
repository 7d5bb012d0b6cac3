-- ===== src/Lendings.antt =====
-- backend/internal/service/lending.go: money lent and borrowed, and its repayments.
mod Defs
pub mod Amounts
pub mod Soundness
pub mod Recorded
pub mod Effects
pub mod Creation
mod RefundRow
pub mod Refund
unfoldable pub use Defs.*
