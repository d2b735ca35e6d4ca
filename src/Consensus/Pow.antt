-- ===== src/Consensus/Pow.antt =====
-- The proof-of-work engine (internal/consensus/pow/engine.go).
mod Defs
pub mod Bounds
pub mod Sealed
mod Tests
unfoldable pub use Defs.*
