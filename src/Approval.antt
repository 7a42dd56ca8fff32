-- ===== src/Approval.antt =====
-- The approvals of a run, src/bridge/approval-coordinator.ts.
pub mod Types
pub mod Questions
pub mod Coordinator
pub mod Answers
pub mod Step
pub mod Lives
pub mod LifeLaws
pub mod CallMoves
pub mod AnswerMoves
pub mod Refinement
pub mod Deadlines
pub mod Once
pub mod Clicks
pub mod Batch
mod Tests
