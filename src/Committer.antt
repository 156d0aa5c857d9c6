-- ===== src/Committer.antt =====
-- The Committer reconciler (internal/controller/committer_controller.go).
pub mod Specs
pub mod Env
pub mod Children
pub mod Reconcile
pub mod Applied
pub mod Cleanup
pub mod Rollout
pub mod Deletion
pub mod Progress
pub mod Settings
pub mod Ignored
mod Examples
