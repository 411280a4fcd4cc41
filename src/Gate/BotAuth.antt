-- ===== src/Gate/BotAuth.antt =====
-- webbotauth.ts: HTTP message signatures of agents (RFC 9421).
pub mod Items
pub mod Fields
pub mod Keys
pub mod Verify
