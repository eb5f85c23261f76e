-- ===== src/Governance/Request.antt =====
-- internal/assignment/governance/validation.go: `ValidateAccessRequestSpec`, `ValidateIdentity`,
-- `validateHumanText` and `containsControl`. A message leaves out the details of the UUID parser and
-- of the DNS name validation.
pub mod Laws
use Prim.Native.String
use Prim.Native.String.{len}
use opensandbox_aks_governan.Base.{
  ℕ, ℤ, pos, String, Bool, true, false, not, ◌&&◌, ◌||◌, ltb, lt_int, times64, if◌then◌else◌, ◌==◌,
  string_eq, is_empty, any_char, is_control, trim_space, Result, ok, err, message, ◌>>=◌, ◌>>◌,
  require, wrap_error, ◌*◌,
}
use opensandbox_aks_governan.Externals.{Externals}
use opensandbox_aks_governan.Api.{
  second, minute, hour, GovernanceIdentity, AssignmentReference, SandboxAccessRequestSpec,
}
use opensandbox_aks_governan.Governance.Target.{Target, normalize_target}

abbrev pub minimum_requested_duration : ℕ
minimum_requested_duration = minute

abbrev pub maximum_requested_duration : ℕ
maximum_requested_duration = 8 * hour

unfoldable pub contains_control : String → Bool
unfolding is_control
contains_control value = any_char is_control value

-- What is wrong with a human text of this name and these bounds on its bytes.
unfoldable pub validate_human_text : String → String → ℕ → ℕ → Result (Unit {0})
validate_human_text name value minimum maximum =
    if not (value == trim_space value)
      || ltb (len value) minimum
      || ltb maximum (len value)
      || contains_control value
    then err (message (String.◌++◌ name " is invalid"))
    else ok tt

-- `if value != "" { validateHumanText(...) }`.
unfoldable pub validate_optional_text : String → String → Result (Unit {0})
validate_optional_text name value =
    if is_empty value then ok tt else validate_human_text name value 1 128

abbrev pub same_target : Target → SandboxAccessRequestSpec → Bool
same_target t spec =
    t.backend == spec.backend
    && t.method == spec.method
    && t.host == spec.host
    && t.path == spec.path

module _ (x : Externals) where
  -- The two optional fields stand in a Go map, whose order is not fixed: it decides only which of
  -- two messages is given.
  unfoldable pub validate_identity : GovernanceIdentity → Result (Unit {0})
  validate_identity identity = do
    require (x.uuid_parses identity.tenant_id) "tenant ID must be a UUID"
    require (x.uuid_parses identity.object_id) "object ID must be a UUID"
    validate_human_text "display name" identity.display_name 1 256
    validate_optional_text "logical tenant" identity.logical_tenant
    validate_optional_text "team" identity.team

  unfoldable pub validate_access_request_spec : SandboxAccessRequestSpec → Result (Unit {0})
  validate_access_request_spec spec = do
    require (x.is_dns1123_subdomain spec.assignment_ref.name) "assignment name is invalid"
    require (not (is_empty spec.assignment_ref.uid)) "assignment UID is required"
    require (not (is_empty spec.pod_uid)) "Pod UID is required"
    require
        (not (
          ltb (len spec.base_policy_revision) 8
          || ltb 128 (len spec.base_policy_revision)
          || contains_control spec.base_policy_revision))
        "base policy revision is invalid"
    target ← normalize_target x spec.backend spec.method spec.host spec.path
    require (same_target target spec) "access request target is not canonical"
    validate_human_text "reason" spec.reason 3 512
    wrap_error "requester" (validate_identity spec.requester)
    let duration = times64 spec.requested_duration_seconds second
    require
        (not (
          lt_int duration (pos minimum_requested_duration)
          || lt_int (pos maximum_requested_duration) duration))
        "requested duration must be between 1m0s and 8h0m0s"
