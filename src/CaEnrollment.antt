-- ===== src/CaEnrollment.antt =====
-- The CAEnrollment reconciler (internal/controller/caenrollment_controller.go).
pub mod Types
pub mod Env
pub mod Status
pub mod Renewal
pub mod Enroll
pub mod Reconcile
pub mod Rules
pub mod Due
pub mod Deletion
pub mod Ignored
pub mod Examples
