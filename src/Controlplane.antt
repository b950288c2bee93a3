-- ===== src/Controlplane.antt =====
-- The control plane (controlplane/).
pub mod Types
pub mod State
pub mod Runs
pub mod Matching
pub mod Submission
pub mod Claiming
pub mod Reconciling
pub mod Identity
pub mod Reports
pub mod Completion
pub mod Records
pub mod Lifecycle
pub mod Calls
pub mod Guarantees
pub mod Fixture
pub mod Access
pub mod Listings
pub mod Blobs
pub mod Service
mod Tests
