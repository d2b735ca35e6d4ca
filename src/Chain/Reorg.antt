-- ===== src/Chain/Reorg.antt =====
-- `reorg` (internal/chain/chain.go).
mod Defs
unfoldable pub use Defs.*
