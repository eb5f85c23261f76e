-- ===== src/Api.antt =====
-- api/assignment/v1alpha1/types.go: the custom resources, with the fields that the modelled code
-- reads. An instant is a number of nanoseconds since Go's zero time, an optional one `metav1.Time`
-- behind a pointer; an int32 or int64 is an integer.
use opensandbox_aks_governan.Base.{ℕ, ℤ, String, Bool, Option, List, ◌*◌}

-- Nanoseconds, as in package time.
abbrev pub second : ℕ
second = 1000000000

abbrev pub minute : ℕ
minute = 60 * second

abbrev pub hour : ℕ
hour = 60 * minute

pub record GovernanceIdentity : Type 0 where
  pub tenant_id : String
  pub object_id : String
  pub display_name : String
  pub logical_tenant : String
  pub team : String

pub record AssignmentReference : Type 0 where
  pub name : String
  pub uid : String

pub record SandboxAccessRequestSpec : Type 0 where
  pub assignment_ref : AssignmentReference
  pub pod_uid : String
  pub base_policy_revision : String
  pub backend : String
  pub method : String
  pub host : String
  pub path : String
  pub reason : String
  pub requester : GovernanceIdentity
  pub requested_duration_seconds : ℤ

-- The state is a string; only the approved one is tested for.
pub record SandboxAccessRequestStatus : Type 0 where
  pub state : String
  pub approver : Option GovernanceIdentity
  pub decision_reason : String
  pub approved_at : Option ℕ
  pub expires_at : Option ℕ

-- `name` and `deleting` (a deletion timestamp is set) come from the object's metadata.
pub record SandboxAccessRequest : Type 0 where
  pub name : String
  pub deleting : Bool
  pub spec : SandboxAccessRequestSpec
  pub status : SandboxAccessRequestStatus

abbrev pub approved_state : String
approved_state = "Approved"

pub record SandboxEgressEvent : Type 0 where
  pub name : String
  pub assignment_ref : AssignmentReference
  pub sandbox_id : String
  pub pod_uid : String
  pub capability_bundle_name : String
  pub capability_bundle_revision : String
  pub logical_tenant : String
  pub team : String
  pub backend : String
  pub method : String
  pub host : String
  pub path : String
  pub allowed : Bool
  pub decision_source : String

pub record SandboxTenantPolicySpec : Type 0 where
  pub logical_tenant : String
  pub workload_namespace : String
  pub allowed_capability_bundles : List String
  pub allowed_capability_bundle_prefixes : List String
  pub max_concurrent_sandboxes : ℤ
  pub max_lifetime_seconds : ℤ
  pub max_access_request_duration_seconds : ℤ
  pub max_cpu : String
  pub max_memory : String
  pub enabled : Bool

pub record SandboxTenantPolicy : Type 0 where
  pub deleting : Bool
  pub spec : SandboxTenantPolicySpec
