-- ===== src/Types/Varint.antt =====
-- Variable-length integers (internal/types/transaction.go).
mod Defs
pub mod Codec
unfoldable pub use Defs.*
