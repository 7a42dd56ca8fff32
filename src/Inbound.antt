-- ===== src/Inbound.antt =====
-- The assembly of a turn from several messages, src/inbound/turn-assembler.ts.
pub mod Types
pub mod Assembler
pub mod Step
pub mod Laws
pub mod Kept
mod Tests
