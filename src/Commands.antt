-- ===== src/Commands.antt =====
-- The commands of packages/cli/src/store.ts: `dispatch`, and `applyCommand` with its idempotency.
pub mod Approval
pub mod Control
pub mod Submit
pub mod LoadSession
pub mod Dispatch
pub mod Once
pub mod Authority
