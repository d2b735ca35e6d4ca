-- ===== src/Utxo/Connect/Sequential.antt =====
-- `ConnectBlock` against the plain meaning of a block: one input and one output at a time.
mod Meaning
mod Step
mod Together
mod Agreement
pub use Meaning.{apply_input, apply_inputs, apply_outputs, apply_tx, apply_txs}
pub use Agreement.{Agrees, connect_block-apply_txs}
