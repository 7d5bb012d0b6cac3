-- ===== src/Tokens.antt =====
-- authz/principal.go and service/api_token.go: the scopes and the API tokens of a user.
mod Defs
pub mod Scopes
pub mod Validation
pub mod Revocation
unfoldable pub use Defs.*
