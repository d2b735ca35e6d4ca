-- ===== src/Types.antt =====
-- The consensus data types of internal/types: hashes, transactions, blocks and their encodings.
pub mod Reader
pub mod Hash
pub mod Varint
pub mod Transaction
pub mod Block
pub mod Tests
