-- ===== src/Examples/Requests.antt =====
-- Access requests and the grants that they give.
use opensandbox_aks_governan.Base.{
  true, false, ◌≡◌, ◌↔◌, refl, some, List, [], ◌∷◌, ok, pos, ◌*◌, arith, times64, trim_space,
}
use opensandbox_aks_governan.Api.{
  second, GovernanceIdentity, SandboxAccessRequestSpec, SandboxAccessRequest, approved_state,
}
use opensandbox_aks_governan.Governance.Target.{
  normalize_target, normalize_host, host_name, address_or_labels, strip_brackets, trim_dot,
  host_label, method_pattern, normalize_path, splits_host_port,
}
use opensandbox_aks_governan.Governance.Request.{
  validate_human_text, validate_optional_text, validate_identity, contains_control,
  validate_access_request_spec,
}
use opensandbox_aks_governan.Governance.Request.Laws.{
  IsValidRequest, validate_access_request_spec_iff,
}
use opensandbox_aks_governan.Authz.Decision.{Decision, empty_decision}
use opensandbox_aks_governan.Authz.Grants.{
  AccessObject, access, unconvertible, valid_approval, judge_request, match_access_grant_objects,
}
use opensandbox_aks_governan.Authz.Grants.Laws.{
  IsGrant, IsApproval, Granted, match_access_grant_objects_iff, IsGrant-IsApproval,
}
use opensandbox_aks_governan.Examples.Sample.{sample}

abbrev alice : GovernanceIdentity
alice = record {
  tenant_id = "00000000-0000-0000-0000-000000000001";
  object_id = "00000000-0000-0000-0000-000000000002";
  display_name = "Alice";
  logical_tenant = "tenant-a";
  team = "";
}

abbrev pub wanted : SandboxAccessRequestSpec
wanted = record {
  assignment_ref = record { name = "assignment-a"; uid = "uid-a" };
  pod_uid = "pod-a";
  base_policy_revision = "sha256:0";
  backend = "source-control";
  method = "GET";
  host = "github.com";
  path = "/org/repo";
  reason = "read the repository";
  requester = alice;
  requested_duration_seconds = pos 600;
}

wanted_valid : validate_access_request_spec sample wanted ≡ ok tt
unfolding validate_access_request_spec normalize_target normalize_host host_name address_or_labels
    strip_brackets trim_dot host_label method_pattern normalize_path splits_host_port trim_space
    validate_human_text validate_optional_text validate_identity contains_control times64
wanted_valid = refl

validate_access_request_spec_iff_example :
    (validate_access_request_spec sample wanted ≡ ok tt) ↔ IsValidRequest sample wanted
validate_access_request_spec_iff_example =
    validate_access_request_spec_iff sample wanted (omega arith)

abbrev pub approved : SandboxAccessRequest
approved = record {
  name = "request-a";
  deleting = false;
  spec = wanted;
  status = record {
    state = approved_state;
    approver = some alice;
    decision_reason = "needed";
    approved_at = some (100 * second);
    expires_at = some (700 * second);
  };
}

abbrev pub asked : Decision
asked = record empty_decision {
  assignment_name = "assignment-a";
  assignment_uid = "uid-a";
  pod_uid = "pod-a";
  capability_bundle_revision = "sha256:0";
  backend = "source-control";
  method = "GET";
  host = "github.com";
  path = "/org/repo";
}

abbrev objects : List AccessObject
objects = unconvertible true ∷ access approved ∷ []

approved_granted :
    match_access_grant_objects sample objects asked (200 * second) ≡ ok ("request-a", "", true)
unfolding match_access_grant_objects judge_request valid_approval validate_access_request_spec
    normalize_target normalize_host host_name address_or_labels strip_brackets trim_dot host_label
    method_pattern normalize_path splits_host_port trim_space validate_human_text
    validate_optional_text validate_identity contains_control times64
approved_granted = refl

match_access_grant_objects_iff_example :
    (match_access_grant_objects sample objects asked (200 * second) ≡ ok ("request-a", "", true))
    ↔ Granted sample asked (200 * second) objects ("request-a" ∷ [])
match_access_grant_objects_iff_example =
    match_access_grant_objects_iff sample asked (200 * second) objects "request-a" (refl, (tt, tt))

approved_IsGrant : IsGrant sample asked (200 * second) approved
unfolding valid_approval validate_access_request_spec normalize_target normalize_host host_name
    address_or_labels strip_brackets trim_dot host_label method_pattern normalize_path
    splits_host_port trim_space validate_human_text validate_optional_text validate_identity
    contains_control times64
approved_IsGrant = record {
  live = refl;
  approved = refl;
  assignment_uid = refl;
  assignment_name = refl;
  pod = refl;
  revision = refl;
  valid = refl;
  backend = refl;
  method = refl;
  host = refl;
  path = refl;
  approval = refl;
}

IsGrant-IsApproval_example : IsApproval approved (200 * second)
IsGrant-IsApproval_example =
    IsGrant-IsApproval sample asked (200 * second) approved (omega arith) approved_IsGrant
