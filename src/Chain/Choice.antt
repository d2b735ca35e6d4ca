-- ===== src/Chain/Choice.antt =====
-- Which block internal/chain makes its tip.
pub mod Path
pub mod Switch
pub mod Steps
pub mod Orphans
pub mod Pool
pub mod Blocks
pub mod Process
