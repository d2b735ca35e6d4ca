-- ===== src/Utxo.antt =====
-- internal/utxo: entries, undo data, the set and the connection of blocks.
pub mod Entry
pub mod Undo
pub mod Set
pub mod Total
pub mod Genesis
pub mod Connect
mod Tests
