-- ===== src/Rollup.antt =====
-- internal/controller/langfuseinstance_controller.go: the status that the instance controller publishes at the
-- end of a pass.
pub mod Update
pub mod Published
pub mod Deprecated
