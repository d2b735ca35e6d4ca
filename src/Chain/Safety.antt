-- ===== src/Chain/Safety.antt =====
-- What an operation of internal/chain leaves of the chain in memory.
pub mod Frame
pub mod Failures
pub mod Reads
pub mod Queue
pub mod Clone
pub mod Tips
pub mod Blocks
