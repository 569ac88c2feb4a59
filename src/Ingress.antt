-- ===== src/Ingress.antt =====
-- The controller that turns Ingress objects into tunnel rules and DNS records
-- (internal/controller/ingress_watcher.go).
pub mod Hosts
pub mod Annotations
pub mod Rules
pub mod Sync
pub mod Lock
pub mod Reconcile
