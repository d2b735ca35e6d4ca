-- ===== src/Chain/Accept.antt =====
-- `ProcessBlock` (internal/chain/chain.go).
mod Defs
mod Orphans
mod Process
unfoldable pub use Defs.*
unfoldable pub use Orphans.*
unfoldable pub use Process.*
