-- ===== src/Common/Text.antt =====
-- JavaScript strings as lists of UTF-16 code units: equality, `trim`, `toLowerCase`, `startsWith`,
-- `includes`, `split`, `slice` and decimal numbers.
mod Defs
mod Laws
mod Substrings
mod Decimal
mod Json
unfoldable pub use Defs.*
unfoldable pub use Laws.*
unfoldable pub use Substrings.*
unfoldable pub use Json.*
unfoldable pub use Decimal.*
