-- ===== src/Types/Hash.antt =====
-- Hashes (internal/types/hash.go): 32 bytes in little-endian order.
mod Defs
pub mod Order
unfoldable pub use Defs.*
unfoldable pub use Order.*
