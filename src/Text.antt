-- ===== src/Text.antt =====
-- Go strings as the bytes that they hold, with the functions of package strings that the code calls.
pub mod Trim
pub mod Parts
pub mod Search
pub mod Prefixes
mod Defs
unfoldable pub use Defs.*
