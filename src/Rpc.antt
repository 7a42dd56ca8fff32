-- ===== src/Rpc.antt =====
-- The JSON-RPC client of the agent servers, src/runner/common/jsonrpc/client.ts. Rpc/Types holds its
-- state and Rpc/Client its operations.
pub mod Types
pub mod Client
pub mod Step
pub mod Counts
pub mod Once
pub mod Over
mod Tests
