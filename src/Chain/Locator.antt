-- ===== src/Chain/Locator.antt =====
-- `BlockLocator` (internal/chain/chain.go).
mod Defs
pub mod Descent
unfoldable pub use Defs.*
