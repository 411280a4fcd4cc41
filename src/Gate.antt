-- ===== src/Gate.antt =====
-- The publisher SDK's gate (services/publisher-sdk/packages/core/src): which routes it covers, who
-- a visitor is, what is decided of a request, and the wrapped handler.
pub mod Types
pub mod Glob
pub mod Detect
pub mod Ranges
pub mod Crawlers
pub mod BotAuth
pub mod Identity
pub mod Decision
pub mod Protect
mod Tests
