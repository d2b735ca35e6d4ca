-- ===== src/Chain.antt =====
-- internal/chain: the block chain in memory, over a store.
pub mod State
pub mod Locator
pub mod Ancestors
pub mod Queries
pub mod Persist
pub mod Reorg
pub mod Accept
pub mod Init
pub mod Safety
pub mod Choice
pub mod Sample
pub mod Tests
