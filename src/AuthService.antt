-- ===== src/AuthService.antt =====
-- The authentication service (services/auth-service): the checks on its inputs, the reputation of
-- visitors, and the proof that a visitor is human.
pub mod Checks
pub mod Reputation
pub mod Types
pub mod Requests
pub mod Human
mod Tests
