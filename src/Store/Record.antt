-- ===== src/Store/Record.antt =====
-- The stored form of the block index (internal/store/blockindex.go).
mod Defs
pub mod Codec
unfoldable pub use Defs.*
