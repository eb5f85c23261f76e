-- ===== src/Authz.antt =====
-- internal/assignment/authz: identity, access grants and the authorization decision.
pub mod Decision
pub mod Grants
pub mod Tokens
pub mod Programs
pub mod Admit
pub mod Check
pub mod Server
