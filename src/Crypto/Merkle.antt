-- ===== src/Crypto/Merkle.antt =====
-- The merkle tree (internal/crypto/merkle.go).
mod Defs
pub mod Tree
pub mod Binding
pub mod Total
unfoldable pub use Defs.*
