-- ===== src/Dashboard.antt =====
-- cmd/aks-sandbox-dashboard: access requests, principals, forms and sessions.
pub mod Handled
pub mod Principals
pub mod Bindings
pub mod Forms
pub mod Requests
pub mod States
pub mod Sessions
pub mod Requester
