-- ===== src/Examples.antt =====
-- Tests on concrete inputs, and the theorems applied to them.
mod Sample
mod Jwt
mod Broker
mod Admission
mod Controller
mod Facade
mod Store
mod CallerAuth
mod Lease
mod Audit
mod Server
mod Targets
mod Requests
mod Authorization
mod Dashboard
mod Sessions
mod Requester
