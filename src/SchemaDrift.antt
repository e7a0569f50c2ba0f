-- ===== src/SchemaDrift.antt =====
-- internal/controller/schema_drift_controller.go: whether the tables that Langfuse's migrations create are in
-- ClickHouse.
pub mod Reconcile
pub mod Tables
