-- ===== src/Migration.antt =====
-- internal/controller/migration_controller.go, Reconcile and cleanupCompletedJobs: when the migration Job
-- is created, replaced and credited. The identities it compares are in Identity.
pub mod Job
pub mod Parts
pub mod Statuses
pub mod Passes
pub mod Reconcile
pub mod Reflexive
pub mod Requests
pub mod Creation
pub mod Writes
pub mod Record
pub mod Credit
pub mod Frame
pub mod Settled
pub mod Refusal
