-- ===== src/Secrets.antt =====
-- internal/controller/secret_controller.go: the Secret that the operator generates, and the Secrets whose
-- rotation restarts the pods.
pub mod Generated
pub mod Backfill
pub mod Referenced
pub mod Watched
