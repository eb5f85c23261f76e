-- ===== src/Broker.antt =====
-- internal/assignment/credentialbroker: credentials for one target, issued, verified and revoked.
pub mod Claims
pub mod Handlers
pub mod Store
