-- ===== src/Identity.antt =====
-- The Identity reconciler (internal/controller/identity_controller.go) and the enrollment package
-- (internal/enrollment/x509.go) under it.
pub mod Types
pub mod Env
pub mod Status
pub mod Secrets
pub mod X509
pub mod Enroll
pub mod Idemix
pub mod Reconcile
pub mod Rules
pub mod Invariant
pub mod Ready
pub mod Errors
pub mod Guard
pub mod Frame
pub mod Outputs
pub mod IdemixOutputs
pub mod Disabled
mod Examples
pub mod TempDir
