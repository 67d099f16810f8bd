-- ===== src/Exchange.antt =====
-- The orchestration engine: internal/oe.
mod Tests
pub mod Value
pub mod Paths
pub mod Operation
pub mod Access
pub mod Completion
pub mod Merge
pub mod Bindings
pub mod Fetches
pub mod Plan
pub mod Federation
pub mod Printing
