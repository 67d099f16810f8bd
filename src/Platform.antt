-- ===== src/Platform.antt =====
-- The platform backend: the applications of consumers and the schemas of providers (internal/pb).
pub mod Systems
pub mod Applications
pub mod Schemas
pub mod Members
pub mod Callers
pub mod Tests
