-- ===== src/Api.antt =====
-- The API types of the operator (api/v1alpha1), as far as its reconcilers pass them on.
pub mod Nil
pub mod Pod
pub mod Component
pub mod Orderer
pub mod Committer
