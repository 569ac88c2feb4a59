-- ===== src/Tunnel.antt =====
-- The controller that keeps a Cloudflare tunnel and the pods that serve it
-- (internal/controller/cloudflaretunnel_controller.go).
pub mod Objects
pub mod Desired
pub mod Client
pub mod Provision
pub mod Apply
pub mod Status
pub mod Reconcile
