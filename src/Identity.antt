-- ===== src/Identity.antt =====
-- internal/controller/migration_controller.go: the identity of a migration, which says what a migration
-- produced and where it landed.
pub mod Target
pub mod Recorded
pub mod Applied
pub mod Fields
pub mod Refs
pub mod Gate
