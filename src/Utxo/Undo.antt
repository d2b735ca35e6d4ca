-- ===== src/Utxo/Undo.antt =====
-- Undo data in its stored form (internal/utxo/utxo.go).
mod Defs
pub mod Stored
unfoldable pub use Defs.*
