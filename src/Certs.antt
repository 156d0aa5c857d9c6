-- ===== src/Certs.antt =====
-- Certificate provisioning (internal/controller/certs).
pub mod Types
pub mod Convert
pub mod Factory
pub mod Provision
pub mod Providers
pub mod Client
pub mod Component
pub mod FabricCa
pub mod Panics
pub mod Choice
pub mod Reuse
pub mod Provisioned
mod Examples
mod CaExamples
