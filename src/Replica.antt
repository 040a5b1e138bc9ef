-- ===== src/Replica.antt =====
-- The replicas of this node: the types of the replica link, and the propagation of a deployment.
pub mod Types
pub mod Summary
pub mod Run
pub mod Registry
