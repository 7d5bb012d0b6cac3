-- ===== src/Money/Decimal.antt =====
-- `formatCents` and `CentsFromDecimalString` of backend/internal/money/money.go, with the parts of
-- `strconv` and `strings` that they use.
pub mod Digits
pub mod Defs
pub mod RoundTrip
pub mod Bounds
unfoldable pub use Defs.{format_cents, cents_from_decimal_string}
