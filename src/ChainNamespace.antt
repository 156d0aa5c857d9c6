-- ===== src/ChainNamespace.antt =====
-- The ChainNamespace reconciler (internal/controller/chainnamespace_controller.go).
pub mod Types
pub mod Env
pub mod Conditions
pub mod Validation
pub mod PublicKey
pub mod Transaction
pub mod Msp
pub mod Broadcast
pub mod Reconcile
pub mod Rules
pub mod Confirmed
pub mod Deployed
mod Examples
