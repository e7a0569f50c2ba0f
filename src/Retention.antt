-- ===== src/Retention.antt =====
-- internal/controller/retention_controller.go: the TTL statements and the storage pressure of ClickHouse.
pub mod Statements
pub mod Disks
pub mod Apply
pub mod Fullest
pub mod Size
pub mod Rows
pub mod Reconcile
pub mod Published
