-- ===== src/Node.antt =====
-- The node (node/): its reports to the control plane, its outbox and its worker.
pub mod Plane
pub mod Delivery
pub mod Retrying
pub mod Outbox
pub mod Local
pub mod Lease
pub mod Worker
mod Tests
