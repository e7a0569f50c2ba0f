-- ===== src/Health.antt =====
-- internal/controller/health_monitor.go: the conditions that tell how the dependencies and the components are.
pub mod Reconcile
pub mod Seen
