-- ===== src/Utxo/Connect.antt =====
-- `ConnectBlock` and `DisconnectBlock` (internal/utxo/utxo.go).
mod Defs
pub mod Tracks
pub mod RoundTrip
pub mod Sequential
unfoldable pub use Defs.*
