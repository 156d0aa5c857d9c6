-- ===== src/Utils.antt =====
-- The helpers that the controllers share: internal/controller/utils (helpers.go, hash.go).
pub mod Text
pub mod Sorting
pub mod Finalizers
pub mod Conditions
pub mod Hash
mod Examples
