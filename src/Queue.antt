-- ===== src/Queue.antt =====
-- src/bridge/queue-manager.ts: the serial queue of each workspace, with its bookkeeping.
pub mod Types
pub mod Cards
pub mod Lanes
pub mod Chain
pub mod Step
pub mod Armed
pub mod Mirror
pub mod Agreement
pub mod Edits
pub mod Runs
pub mod Admission
pub mod Begin
pub mod Updates
pub mod CardLaws
mod Tests
