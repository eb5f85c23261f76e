-- ===== src/Governance.antt =====
-- internal/assignment/governance: normalised targets, access requests, impact simulation.
pub mod Target
pub mod Request
