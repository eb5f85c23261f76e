-- ===== src/Dashboard/Requests/Decisions.antt =====
-- cmd/aks-sandbox-dashboard/governance.go: `approveAccessRequest` and `denyAccessRequest`.
use opensandbox_aks_governan.Base.{
  ℕ, ◌+◌, ◌-◌, nat_eq, ℤ, pos, negsuc, lt_int, times64, String, not, Option, none, some, List, [],
  ◌∷◌, string_eq, Result, ok, err,
}
use opensandbox_aks_governan.Api.{
  second, GovernanceIdentity, SandboxAccessRequestSpec, SandboxAccessRequestStatus,
  SandboxAccessRequest, approved_state,
}
use opensandbox_aks_governan.Externals.{Externals}
use opensandbox_aks_governan.Governance.Request.{validate_identity, validate_access_request_spec}
use opensandbox_aks_governan.Facade.Lifecycle.{Response, reply}
use opensandbox_aks_governan.Facade.Templates.{tenant_of_bundle}
use opensandbox_aks_governan.Dashboard.Handled.{
  Handled, refused, passed, demand, attempt, ◌>>=◌, ◌>>◌,
}
use opensandbox_aks_governan.Dashboard.Principals.{
  AuthenticatedIdentity, load_principal_scopes, administers,
}
use opensandbox_aks_governan.Dashboard.Forms.{
  Mutation, Form, form_value, parse_mutation, parse_duration_minutes,
}
use opensandbox_aks_governan.Dashboard.Requests.{
  Site, Reads, denied_state, reason_allowed, max_access, request_assignment, resource_error,
  conflicting, require_admin, pending_request, approver_of, request_message,
}

module _ (x : Externals) (site : Site) (r : Reads) where
  -- The status that an approval sends.
  abbrev pub approved_status : ℕ → ℕ → GovernanceIdentity → String → SandboxAccessRequestStatus
  approved_status from until approver reason = record {
    state = approved_state;
    approver = some approver;
    decision_reason = reason;
    approved_at = some from;
    expires_at = some until;
  }

  abbrev pub denied_status : GovernanceIdentity → String → SandboxAccessRequestStatus
  denied_status approver reason = record {
    state = denied_state;
    approver = some approver;
    decision_reason = reason;
    approved_at = none;
    expires_at = none;
  }

  -- `t.Add(d)`; no time is before zero.
  abbrev pub add_duration : ℕ → ℤ → ℕ
  add_duration t (pos d) = t + d
  add_duration t (negsuc d) = t - (d + 1)

  -- The start of both decisions: an administrator, and a form with these fields.
  unfoldable pub decision_form :
      List String → Option AuthenticatedIdentity → Mutation → Handled (AuthenticatedIdentity × Form)
  decision_form fields who m = do
    identity ← require_admin x site r who m
    form ← parse_mutation x site.equal_fold site.public_origin fields m
    passed (identity, form)

  -- The middle of both: a reason, and a pending request of a tenant of the administrator's.
  unfoldable pub decidable_request :
      AuthenticatedIdentity → String → String → Handled SandboxAccessRequest
  decidable_request identity reason name = do
    demand (reason_allowed reason) 400 "Decision reason must be 3-512 characters"
    request ← pending_request x site r name
    demand
        (administers (load_principal_scopes r.bindings identity)
          request.spec.requester.logical_tenant)
        403 "Administrator is not authorized for this logical tenant"
    passed request

  -- The access budget of the tenant that the bundle of the request's assignment names.
  unfoldable pub access_budget : SandboxAccessRequestSpec → Handled ℤ
  access_budget spec = do
    assignment ← attempt (resource_error x site r) (r.assignment_later spec.assignment_ref.name)
    bundle ← attempt (resource_error x site r) (r.bundle assignment.bundle_name)
    attempt (conflicting x site r) (max_access (tenant_of_bundle bundle) r)

  -- What an approval asks of the request and of the duration.
  unfoldable pub check_approval : SandboxAccessRequestSpec → ℤ → Handled (Unit {0})
  check_approval spec duration = do
    attempt (λ e. reply 409 "Access request is invalid") (validate_access_request_spec x spec)
    demand (not (lt_int (times64 spec.requested_duration_seconds second) duration)) 400
        "Approved duration exceeds the requested duration"
    attempt (conflicting x site r) (request_assignment spec (r.assignment spec.assignment_ref.name))
    budget ← access_budget spec
    demand (not (lt_int (times64 budget second) duration)) 400
        "Approved duration exceeds the tenant access budget"

  -- The end of both: the approver must be valid.
  unfoldable pub sign :
      AuthenticatedIdentity
      → SandboxAccessRequest
      → SandboxAccessRequestStatus
      → Handled (SandboxAccessRequest × SandboxAccessRequestStatus)
  sign identity request status = do
    attempt (λ e. reply 403 "Authenticated administrator identity is invalid")
        (validate_identity x (approver_of x site r identity))
    passed (request, status)

  -- Up to the update: the request that was read and the status that is sent.
  unfoldable pub approval :
      Option AuthenticatedIdentity
      → Mutation
      → String
      → Handled (SandboxAccessRequest × SandboxAccessRequestStatus)
  approval who m name = do
    input ← decision_form ("csrf" ∷ "decisionReason" ∷ "durationMinutes" ∷ []) who m
    duration ←
        attempt (λ e. reply 400 (site.error_text e))
          (parse_duration_minutes (form_value "durationMinutes" input.1))
    request ← decidable_request input.0 (form_value "decisionReason" input.1) name
    check_approval request.spec duration
    sign input.0 request (
        approved_status r.now (add_duration r.now duration) (approver_of x site r input.0)
          (form_value "decisionReason" input.1))

  unfoldable pub denial :
      Option AuthenticatedIdentity
      → Mutation
      → String
      → Handled (SandboxAccessRequest × SandboxAccessRequestStatus)
  denial who m name = do
    input ← decision_form ("csrf" ∷ "decisionReason" ∷ []) who m
    request ← decidable_request input.0 (form_value "decisionReason" input.1) name
    sign input.0 request
        (denied_status (approver_of x site r input.0) (form_value "decisionReason" input.1))

  -- What is written by an update that sends this request, and the response.
  abbrev pub written :
      SandboxAccessRequest → String → Result (Unit {0}) → Response × Option SandboxAccessRequest
  written sent text (err e) = (resource_error x site r e, none)
  written sent text (ok u) = (reply 303 (request_message x site r sent.name text), some sent)

  -- A handler that ends in one update of the request's status.
  abbrev pub conclude :
      (SandboxAccessRequest → Result (Unit {0}))
      → String
      → Handled (SandboxAccessRequest × SandboxAccessRequestStatus)
      → Response × Option SandboxAccessRequest
  conclude update text (refused response) = (response, none)
  conclude update text (passed (request, status)) =
      written (record request { status = status }) text
        (update (record request { status = status }))

  unfoldable pub approve_access_request :
      (SandboxAccessRequest → Result (Unit {0}))
      → Option AuthenticatedIdentity
      → Mutation
      → String
      → Response × Option SandboxAccessRequest
  approve_access_request update who m name = conclude update "approved" (approval who m name)

  unfoldable pub deny_access_request :
      (SandboxAccessRequest → Result (Unit {0}))
      → Option AuthenticatedIdentity
      → Mutation
      → String
      → Response × Option SandboxAccessRequest
  deny_access_request update who m name = conclude update "denied" (denial who m name)
