-- ===== src/Breaker.antt =====
-- internal/controller/circuit_breaker.go: the worker is scaled to zero while a dependency is down. Log
-- lines are left out.
pub mod State
pub mod Actions
pub mod Check
pub mod Reconcile
pub mod Scale
pub mod Passes
pub mod Faults
