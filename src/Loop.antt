-- ===== src/Loop.antt =====
-- The loop controller: bounded attempts of an implementer, deterministic checks and a reviewer
-- (internal/loop).
pub mod State
pub mod Turn
pub mod Checkpoint
pub mod Check
pub mod Invoke
pub mod Runes
pub mod Verdict
pub mod Bounded
pub mod Holds
pub mod Protocol
pub mod Calm
pub mod Source
pub mod Verified
pub mod Observed
pub mod Contract
pub mod Approval
pub mod Reviewed
pub mod Rounds
pub mod Runs
pub mod Ownership
pub mod History
pub mod Resume
pub mod Planned
