-- ===== src/Crypto.antt =====
-- internal/crypto: digests, the merkle tree and compact difficulty targets.
pub mod Digest
pub mod Sample
pub mod Keys
pub mod Merkle
pub mod Target
pub mod Work
mod Tests
