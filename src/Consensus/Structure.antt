-- ===== src/Consensus/Structure.antt =====
-- The structural checks of a block (internal/consensus/validation.go).
mod Defs
pub mod Accepted
unfoldable pub use Defs.*
