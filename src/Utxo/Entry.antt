-- ===== src/Utxo/Entry.antt =====
-- Entries of the set and their stored form (internal/utxo/utxo.go).
mod Defs
pub mod Stored
unfoldable pub use Defs.*
