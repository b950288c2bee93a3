-- ===== src/Controlplane/Guarantees.antt =====
-- What the storage of controlplane/memory.go promises of its single methods.
pub mod Fencing
pub mod Repeating
pub mod Answers
pub mod Listing
