-- ===== src/Embedded.antt =====
-- The embedded engine (engine.go, store.go) and its capability calls (capability.go).
pub mod Store
pub mod Engine
pub mod Outcomes
pub mod Capability
mod Tests
