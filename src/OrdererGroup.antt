-- ===== src/OrdererGroup.antt =====
-- The OrdererGroup reconciler (internal/controller/orderergroup_controller.go).
pub mod Specs
pub mod Env
pub mod Status
pub mod Children
pub mod Reconcile
pub mod Applied
pub mod Rules
pub mod Cleanup
pub mod Rollout
pub mod Deletion
pub mod Conditions
mod Examples
