-- ===== src/Audit.antt =====
-- internal/assignment/authz/audit.go: the audit log of authorization decisions.
pub mod Values
pub mod Record
pub mod Cleanup
