-- ===== src/Consensus.antt =====
-- internal/consensus: the checks of a block's structure, of its inputs and of header timestamps.
pub mod Inputs
pub mod Structure
pub mod Supply
pub mod Timestamp
pub mod Pow
pub mod Engine
pub mod Tests
