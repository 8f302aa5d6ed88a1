-- ===== src/Command.antt =====
-- The two commands: cmd/api/main.go and cmd/worker/main.go.
pub mod Api
pub mod Worker
pub mod Effects
pub mod Release
pub mod Drain
pub mod Wiring
pub mod Settles
