-- ===== src/Script.antt =====
-- The script engine (internal/script/script.go).
pub mod Machine
pub mod Ends
pub mod Limits
pub mod Push
pub mod P2pkh
pub mod Tests
