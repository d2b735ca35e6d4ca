-- ===== src/Consensus/Timestamp.antt =====
-- The check of a header's timestamp (internal/consensus/validation.go).
mod Defs
pub mod Median
unfoldable pub use Defs.*
