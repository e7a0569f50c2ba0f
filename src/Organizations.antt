-- ===== src/Organizations.antt =====
-- internal/controller/langfuseorganization_controller.go
pub mod Api
pub mod Resolve
pub mod Sync
pub mod Membership
pub mod Agreement
pub mod Members
pub mod Settled
pub mod Reconcile
pub mod Ready
