-- ===== src/Committer/Specs.antt =====
-- The specs of the children: `buildCoordinatorSpec`, `buildSidecarSpec`, `buildValidatorSpec`,
-- `buildVerifierSpec` and `buildQueryServiceSpec`.
pub mod Coordinator
pub mod Sidecar
pub mod Validator
pub mod Verifier
pub mod QueryService
