-- ===== src/Policy.antt =====
-- The policy decision point: internal/pdp.
pub mod Tests
pub mod Model
pub mod Engine
pub mod Service
