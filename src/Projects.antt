-- ===== src/Projects.antt =====
-- internal/controller/langfuseproject_controller.go
pub mod Api
pub mod Sync
pub mod Client
pub mod Unrepaired
pub mod Turns
pub mod Specified
pub mod Rotation
pub mod Reconcile
pub mod Ready
