-- ===== src/Text.antt =====
-- Text as its bytes, with the operations that the Go and Lua code apply to it.
mod Base
pub mod Decimal
pub mod Members
pub mod Search
pub mod Lines
pub mod Integers
pub use Base.{Text, codes, eq_text_refl, eq_text_iff}
unfoldable pub use Base.{eq_text}
