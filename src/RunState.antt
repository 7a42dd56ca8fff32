-- ===== src/RunState.antt =====
-- src/card/run-state.ts: the state of a run card, reduced from the events of an agent.
pub mod Types
pub mod Decimal
pub mod Marks
pub mod MarkLaws
pub mod Blocks
pub mod TurnDiff
pub mod Content
pub mod Answer
pub mod Jobs
pub mod Approvals
pub mod Reduce
pub mod Frame
pub mod JobLaws
pub mod Verdict
pub mod Bounds
pub mod Capped
pub mod Life
pub mod ApprovalLaws
pub mod AnswerLaws
pub mod ApprovalEvents
pub mod JobEnd
pub mod Tools
pub mod Snapshots
mod Tests
