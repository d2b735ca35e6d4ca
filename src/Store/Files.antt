-- ===== src/Store/Files.antt =====
-- The flat files of blocks and undo data (internal/store/blockfile.go).
mod Defs
pub mod Frames
pub mod Kept
pub mod ReadBack
pub mod ReadUndo
pub mod Tests
unfoldable pub use Defs.*
