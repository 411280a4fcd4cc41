-- ===== src/Facilitator.antt =====
-- The facilitator of the "exact" payment scheme on Stellar
-- (services/mcp-server/src/core/stellar/exact/facilitator/scheme.ts, with ../../shared.ts and
-- ../../utils.ts): what a client presents, what the SDK and the RPC server answer, and the checks.
pub mod Types
pub mod Events
pub mod Auth
pub mod Verify
pub mod Stages
pub mod Effects
pub mod Signatures
pub mod Soundness
pub mod Settle
pub mod Settlement
mod Tests
