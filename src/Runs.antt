-- ===== src/Runs.antt =====
-- What every operation keeps of the rows of `runs`, and the bounds on how many of them are active.
pub mod Evolution
pub mod Lifecycle
pub mod Commands
pub mod Engine
pub mod Sweeps
pub mod Caps
pub mod Starts
pub mod StopAll
pub mod Persists
