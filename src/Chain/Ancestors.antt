-- ===== src/Chain/Ancestors.antt =====
-- The ancestor lookup of internal/chain/chain.go.
mod Defs
pub mod Walk
unfoldable pub use Defs.*
