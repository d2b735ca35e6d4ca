-- ===== src/Types/Block.antt =====
-- Block headers and blocks (internal/types/block.go).
mod Defs
pub mod Codec
unfoldable pub use Defs.*
