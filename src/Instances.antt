-- ===== src/Instances.antt =====
-- internal/controller/langfuseinstance_controller.go: the pass of the instance controller, which applies the
-- workload of an instance and publishes its status.
pub mod Resources
pub mod Apply
pub mod Reconcile
pub mod Planned
pub mod Workload
pub mod Frozen
pub mod Applied
pub mod Together
pub mod Yielded
pub mod Agreement
