-- ===== src/Consent.antt =====
-- The consent engine: internal/ce.
mod Tests
pub mod Model
pub mod Expiry
pub mod Requests
pub mod Service
pub mod Portal
