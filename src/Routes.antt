-- ===== src/Routes.antt =====
-- The Gateway API routes (internal/controller/gateway_helpers.go) and the Istio routes
-- (internal/controller/istio_helpers.go).
pub mod Gateway
pub mod Route
pub mod Current
pub mod Istio
pub mod IstioCurrent
mod Examples
