-- ===== src/Consensus/Inputs.antt =====
-- The checks of transactions against the UTXO set (internal/consensus/txvalidation.go).
mod Defs
mod Sums
pub mod Money
pub mod Connects
pub mod Disconnects
pub mod Fee
unfoldable pub use Defs.*
unfoldable pub use Sums.{ValuesFit, inputs_value, outputs_value}
