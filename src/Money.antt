-- ===== src/Money.antt =====
-- backend/internal/money/money.go: decimal money amounts over integer cents.
--
-- `Amount` is a float64 in the source. Every amount that the program makes is `FromCents` of a
-- number of cents, or NaN; the model keeps the cents. This is the source's float as long as the
-- cents can be read back from it, which the spacing of float64 grants below 2^45 yuan (about
-- 3.5 * 10^15 cents); `max_exact_cents` is the source's own bound.
mod Defs
pub mod Decimal
pub mod Exact
unfoldable pub use Defs.*
