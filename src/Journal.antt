-- ===== src/Journal.antt =====
-- What every operation keeps of the command log, the latch, the event journal and the conversation
-- (the tables `commands`, `stop_all`, `events` and `messages`).
pub mod Base
pub mod Finish
pub mod Commands
pub mod Engine
pub mod Sweeps
pub mod Steps
pub mod Idempotence
pub mod Forever
pub mod Rollback
pub mod AppendOnly
