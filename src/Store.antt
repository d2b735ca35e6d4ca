-- ===== src/Store.antt =====
-- internal/store: the interface that the chain works behind, and what passes through it.
pub mod Index
pub mod Interface
pub mod Files
pub mod Record
pub mod Tests
