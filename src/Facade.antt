-- ===== src/Facade.antt =====
-- internal/assignment/opensandboxapi/handler.go: the assignment-aware OpenSandbox facade.
pub mod Routes
pub mod Lifecycle
pub mod Templates
pub mod Create
