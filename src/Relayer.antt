-- ===== src/Relayer.antt =====
-- The payment relayer (services/payment-relayer/src): validation and routing of payments, the
-- handlers of /verify and /settle, deduplication and the facilitator lock.
pub mod Amount
pub mod Types
pub mod Validation
pub mod Operations
pub mod Chain
pub mod Settle
pub mod Idempotency
pub mod Lock
mod Tests
