-- ===== src/Controller.antt =====
-- internal/assignment/controller/controller.go: the reconciliation of assignments.
pub mod Objects
pub mod Validate
pub mod Conditions
pub mod Reconcile
pub mod Finalize
