-- ===== src/Authz/Decision.antt =====
-- internal/assignment/authz/server.go: the checker's input and its decision.
use opensandbox_aks_governan.Base.{String, Bool, false, List}

pub record CheckInput : Type 0 where
  pub backend : String
  pub identity_token : String
  pub method : String
  pub host : String
  pub path : String
  pub headers : List (String × String)
  pub source_address : String
  pub derive_source_from_identity : Bool

pub record Decision : Type 0 where
  pub allow : Bool
  pub reason : String
  pub source : String
  pub access_request_name : String
  pub assignment_name : String
  pub assignment_uid : String
  pub sandbox_id : String
  pub pod_uid : String
  pub capability_bundle_name : String
  pub capability_bundle_revision : String
  pub logical_tenant : String
  pub team : String
  pub permission_level : String
  pub boundary_display_name : String
  pub backend : String
  pub method : String
  pub host : String
  pub path : String

-- `Decision{}`, and `Decision{Reason: reason}`.
abbrev pub empty_decision : Decision
empty_decision = record {
  allow = false;
  reason = "";
  source = "";
  access_request_name = "";
  assignment_name = "";
  assignment_uid = "";
  sandbox_id = "";
  pod_uid = "";
  capability_bundle_name = "";
  capability_bundle_revision = "";
  logical_tenant = "";
  team = "";
  permission_level = "";
  boundary_display_name = "";
  backend = "";
  method = "";
  host = "";
  path = "";
}

abbrev pub denied : String → Decision
denied text = record empty_decision { reason = text }
