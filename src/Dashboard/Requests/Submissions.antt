-- ===== src/Dashboard/Requests/Submissions.antt =====
-- cmd/aks-sandbox-dashboard/governance.go: `createAccessRequest`.
use Prim.Native.String
use Prim.Native.String.{len}
use opensandbox_aks_governan.Base.{
  ℕ, ◌+◌, ◌-◌, ◌/◌, nat_eq, ℤ, pos, negsuc, lt_int, times64, String, Bool, false, not, ◌&&◌, Option,
  none, some, List, [], ◌∷◌, if◌then◌else◌, ◌==◌, string_eq, Result, ok, err,
}
use opensandbox_aks_governan.Api.{
  second, SandboxAccessRequestSpec, SandboxAccessRequest, SandboxEgressEvent,
}
use opensandbox_aks_governan.Externals.{Externals}
use opensandbox_aks_governan.Governance.Target.{Target, normalize_target}
use opensandbox_aks_governan.Governance.Request.{validate_access_request_spec}
use opensandbox_aks_governan.Facade.Lifecycle.{Response, reply}
use opensandbox_aks_governan.Dashboard.Handled.{
  Handled, refused, passed, demand, attempt, ◌>>=◌, ◌>>◌,
}
use opensandbox_aks_governan.Dashboard.Principals.{
  AuthenticatedIdentity, PrincipalTenantScopes, load_principal_scopes, tenant_allowed,
}
use opensandbox_aks_governan.Dashboard.Forms.{
  Mutation, Form, form_value, parse_mutation, parse_duration_minutes,
}
use opensandbox_aks_governan.Dashboard.Requests.{
  Site, Reads, pending_state, internal, max_access, has_active_duplicate, event_assignment,
  resource_error, conflicting, request_context, decoded, request_message,
}

abbrev pub negated : ℕ → ℤ
negated n = if n == 0 then pos 0 else negsuc (n - 1)

-- `int32(duration / time.Second)` for a duration within the bounds, which an int32 holds.
abbrev pub whole_seconds : ℤ → ℤ
whole_seconds (pos d) = pos (d / second)
whole_seconds (negsuc d) = negated ((d + 1) / second)

module _ (x : Externals) (site : Site) (r : Reads) where
  abbrev pub target_of : SandboxEgressEvent → Result Target
  target_of event = normalize_target x event.backend event.method event.host event.path

  abbrev pub canonical_event : SandboxEgressEvent → Result Target → Bool
  canonical_event event (err e) = false
  canonical_event event (ok t) =
      t.backend == event.backend
      && t.method == event.method
      && t.host == event.host
      && t.path == event.path

  abbrev pub requests_for : Result PrincipalTenantScopes → Handled (List String)
  requests_for (err e) = refused (reply 403 "Forbidden")
  requests_for (ok scopes) = elim scopes.requester [
    | [] ↦ refused (reply 403 "Forbidden")
    | t ∷ rest ↦ passed (t ∷ rest)
  ]

  -- The spec of a new request; its target is the event's, which is canonical.
  abbrev pub spec_of :
      AuthenticatedIdentity → SandboxEgressEvent → String → ℤ → SandboxAccessRequestSpec
  spec_of identity event reason duration = record {
    assignment_ref = event.assignment_ref;
    pod_uid = event.pod_uid;
    base_policy_revision = event.capability_bundle_revision;
    backend = event.backend;
    method = event.method;
    host = event.host;
    path = event.path;
    reason = reason;
    requester = record {
      tenant_id = identity.tenant_id;
      object_id = identity.object_id;
      display_name = identity.name;
      logical_tenant = event.logical_tenant;
      team = event.team;
    };
    requested_duration_seconds = whole_seconds duration;
  }

  -- The denied event of a request, which must be one of the requester's tenants' and canonical.
  unfoldable pub denied_event : List String → String → Handled SandboxEgressEvent
  denied_event tenants name = do
    object ← attempt (resource_error x site r) (r.event name)
    event ← decoded x site r object
    demand (not event.allowed && event.decision_source == "deny") 409
        "Access can only be requested from a denied event"
    demand (tenant_allowed tenants event.logical_tenant) 403
        "Denied event belongs to another logical tenant"
    demand (canonical_event event (target_of event)) 409 "Denied event target is invalid"
    passed event

  -- What the creation asks of the event's assignment and tenant.
  unfoldable pub check_event : SandboxEgressEvent → ℤ → Handled (Unit {0})
  check_event event duration = do
    attempt (conflicting x site r) (event_assignment event (r.assignment event.assignment_ref.name))
    budget ← attempt (conflicting x site r) (max_access event.logical_tenant r)
    demand (not (lt_int (times64 budget second) duration)) 400
        "Requested duration exceeds the tenant access budget"

  -- What it asks of the new spec.
  unfoldable pub check_spec : SandboxAccessRequestSpec → Handled SandboxAccessRequestSpec
  check_spec spec = do
    attempt (λ e. reply 400 (String.◌++◌ "Invalid access request: " (site.error_text e)))
        (validate_access_request_spec x spec)
    duplicate ← attempt internal (has_active_duplicate spec r)
    demand (not duplicate) 409 "An active request already exists for this exact target"
    passed spec

  unfoldable pub creation_form : Mutation → Handled (Form × ℤ)
  creation_form m = do
    form ←
        parse_mutation x site.equal_fold site.public_origin
          ("csrf" ∷ "eventName" ∷ "reason" ∷ "durationMinutes" ∷ []) m
    demand (x.is_dns1123_subdomain (form_value "eventName" form)) 400 "Invalid event name"
    duration ←
        attempt (λ e. reply 400 (site.error_text e))
          (parse_duration_minutes (form_value "durationMinutes" form))
    passed (form, duration)

  -- Up to the creation: the spec of the request that is created.
  unfoldable pub creation :
      Option AuthenticatedIdentity → Mutation → Handled SandboxAccessRequestSpec
  creation who m = do
    identity ← request_context x site r who m
    tenants ← requests_for (load_principal_scopes r.bindings identity)
    input ← creation_form m
    event ← denied_event tenants (form_value "eventName" input.0)
    check_event event input.1
    check_spec (spec_of identity event (form_value "reason" input.0) input.1)

  -- The status of a request that was created.
  abbrev pub initialize :
      (SandboxAccessRequest → Result (Unit {0}))
      → Result SandboxAccessRequest
      → Response × Option SandboxAccessRequest
  initialize update (err e) = (resource_error x site r e, none)
  initialize update (ok request) =
      elim (update (record request { status = record request.status { state = pending_state } })) [
        | err e ↦ (internal e, some request)
        | ok _ ↦ (
          reply 303 (request_message x site r request.name "created"),
          some (record request { status = record request.status { state = pending_state } }),
        )
      ]

  abbrev pub submit :
      (SandboxAccessRequestSpec → Result SandboxAccessRequest)
      → (SandboxAccessRequest → Result (Unit {0}))
      → Handled SandboxAccessRequestSpec
      → Response × Option SandboxAccessRequest
  submit make update (refused response) = (response, none)
  submit make update (passed spec) = initialize update (make spec)

  unfoldable pub create_access_request :
      (SandboxAccessRequestSpec → Result SandboxAccessRequest)
      → (SandboxAccessRequest → Result (Unit {0}))
      → Option AuthenticatedIdentity
      → Mutation
      → Response × Option SandboxAccessRequest
  create_access_request make update who m = submit make update (creation who m)
