-- ===== src/Types/Transaction.antt =====
-- Transactions (internal/types/transaction.go): the records, the encoders and the decoders.
mod Defs
pub mod Codec
pub mod Size
unfoldable pub use Defs.*
