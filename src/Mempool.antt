-- ===== src/Mempool.antt =====
-- internal/mempool: the pool of unconfirmed transactions.
mod Defs
pub mod Consistency
pub mod Steps
unfoldable pub use Defs.*
mod Tests
