-- ===== src/Dashboard/Requests.antt =====
-- cmd/aks-sandbox-dashboard/governance.go: what `createAccessRequest`, `approveAccessRequest` and
-- `denyAccessRequest` share. What the API server answers to one handler is in `Reads`, with one field for
-- each call; the conversion of a stored object to the API's types is part of the answer.
pub mod Approvals
pub mod Checks
pub mod Creations
pub mod Decisions
pub mod Facts
pub mod Lawful
pub mod Proposals
pub mod Grants
pub mod Laws
pub mod Submissions
use Prim.Native.String
use Prim.Native.String.{len}
use opensandbox_aks_governan.Base.{
  ℕ, ◌+◌, ◌-◌, ◌/◌, nat_eq, ◌^◌, ℤ, pos, negsuc, lt_int, times64, leb, ltb, String, Bool, true,
  false, not, ◌&&◌, ◌||◌, Option, none, some, List, [], ◌∷◌, if◌then◌else◌, ◌==◌, string_eq,
  is_empty, is_ok, trim_space, contains, Error, message, Result, ok, err,
}
use opensandbox_aks_governan.Api.{
  second, AssignmentReference, GovernanceIdentity, SandboxAccessRequestSpec,
  SandboxAccessRequestStatus, SandboxAccessRequest, SandboxEgressEvent, SandboxTenantPolicy,
  approved_state,
}
use opensandbox_aks_governan.Cluster.{
  AssignmentObject, BundleObject, resolved_name, resolved_revision,
}
use opensandbox_aks_governan.Externals.{Externals}
use opensandbox_aks_governan.Admission.{matching}
use opensandbox_aks_governan.Governance.Target.{Target, normalize_target}
use opensandbox_aks_governan.Governance.Request.{
  same_target, validate_identity, validate_access_request_spec,
}
use opensandbox_aks_governan.Facade.Lifecycle.{Response, reply, is_missing}
use opensandbox_aks_governan.Facade.Templates.{tenant_of_bundle}
use opensandbox_aks_governan.Store.{is_conflict}
use opensandbox_aks_governan.Dashboard.Handled.{
  Handled, refused, passed, demand, attempt, ◌>>=◌, ◌>>◌,
}
use opensandbox_aks_governan.Dashboard.Principals.{
  AuthenticatedIdentity, PrincipalBinding, PrincipalTenantScopes, known_identity,
  load_principal_scopes, tenant_allowed, administers,
}
use opensandbox_aks_governan.Dashboard.Forms.{
  Mutation, Form, form_value, parse_mutation, parse_duration_minutes,
}

abbrev pub pending_state : String
pending_state = "Pending"

abbrev pub denied_state : String
denied_state = "Denied"

-- The dashboard's settings, `strings.EqualFold`, and what an API error says of itself.
pub record Site : Type 0 where
  pub public_origin : String
  pub admin_role : String
  pub equal_fold : String → String → Bool
  pub error_text : Error → String
  pub is_forbidden : Error → Bool

pub record Reads : Type 0 where
  pub bindings : Result (List (Result PrincipalBinding))
  pub event : String → Result (Result SandboxEgressEvent)
  pub request : String → Result (Result SandboxAccessRequest)
  pub requests : Result (List (Result SandboxAccessRequest))
  pub assignment : String → Result AssignmentObject
  pub assignment_later : String → Result AssignmentObject
  pub bundle : String → Result BundleObject
  pub policies : Result (List (Result SandboxTenantPolicy))
  pub now : ℕ

-- `requestState`: a request without a state is pending.
abbrev pub request_state : SandboxAccessRequestStatus → String
request_state status = if is_empty status.state then pending_state else status.state

abbrev pub internal : Error → Response
internal e = reply 500 "Governance operation failed"

-- `len(strings.TrimSpace(reason)) < 3 || len(reason) > 512`, negated.
abbrev pub reason_allowed : String → Bool
reason_allowed reason = leb 3 (len (trim_space reason)) && leb (len reason) 512

-- `maxAccessDurationSeconds`; its message leaves out the tenant.
abbrev pub budget_of : Result (List SandboxTenantPolicy) → Result ℤ
budget_of (err e) = err e
budget_of (ok []) = err (message "logical tenant must have exactly one enabled tenant policy")
budget_of (ok (policy ∷ [])) = ok policy.spec.max_access_request_duration_seconds
budget_of (ok (_ ∷ _ ∷ _)) =
    err (message "logical tenant must have exactly one enabled tenant policy")

abbrev pub max_access : String → Reads → Result ℤ
max_access tenant r = elim r.policies [ err e ↦ err e | ok list ↦ budget_of (matching tenant list) ]

-- The requests that still count against a new one: pending, or approved and not over.
abbrev pub unexpired : Option ℕ → ℕ → Bool
unexpired none now = false
unexpired (some expiry) now = ltb now expiry

abbrev pub is_active : ℕ → SandboxAccessRequestStatus → Bool
is_active now status =
    request_state status == pending_state
    || (request_state status == approved_state && unexpired status.expires_at now)

abbrev pub same_intent : SandboxAccessRequestSpec → SandboxAccessRequestSpec → Bool
same_intent a b =
    a.assignment_ref.name == b.assignment_ref.name
    && a.assignment_ref.uid == b.assignment_ref.uid
    && a.base_policy_revision == b.base_policy_revision
    && a.backend == b.backend
    && a.method == b.method
    && a.host == b.host
    && a.path == b.path

-- The loop of `hasActiveDuplicate`, at one instant for all requests.
unfoldable pub duplicate_in :
    ℕ → SandboxAccessRequestSpec → List (Result SandboxAccessRequest) → Result Bool
duplicate_in now spec [] = ok false
duplicate_in now spec (err e ∷ rest) = err e
duplicate_in now spec (ok request ∷ rest) =
    let later = duplicate_in now spec rest in
    if is_active now request.status && same_intent request.spec spec then ok true else later

abbrev pub has_active_duplicate : SandboxAccessRequestSpec → Reads → Result Bool
has_active_duplicate spec r = elim r.requests [
  | err e ↦ err e
  | ok list ↦ duplicate_in r.now spec list
]

-- `validateEventAssignment` and `validateRequestAssignment`.
abbrev pub event_assignment : SandboxEgressEvent → Result AssignmentObject → Result (Unit {0})
event_assignment event (err e) = err (message "assignment is no longer available")
event_assignment event (ok a) =
    if a.deleting || not (a.uid == event.assignment_ref.uid)
    then err (message "denied event belongs to a stale assignment incarnation")
    else if not (resolved_name a.status.resolved == event.capability_bundle_name)
        || not (resolved_revision a.status.resolved == event.capability_bundle_revision)
    then err (message "denied event belongs to a stale capability policy revision")
    else ok tt

abbrev pub request_assignment :
    SandboxAccessRequestSpec → Result AssignmentObject → Result (Unit {0})
request_assignment spec (err e) = err (message "assignment is no longer available")
request_assignment spec (ok a) =
    if a.deleting || not (a.uid == spec.assignment_ref.uid)
    then err (message "access request belongs to a stale assignment incarnation")
    else if not (resolved_revision a.status.resolved == spec.base_policy_revision)
    then err (message "access request belongs to a stale capability policy revision")
    else ok tt

module _ (x : Externals) (site : Site) (r : Reads) where
  -- `resourceError`.
  abbrev pub resource_error : Error → Response
  resource_error e =
      if is_missing e
      then reply 404 "Resource not found"
      else if is_conflict e
      then reply 409 "Resource changed; reload and retry"
      else if site.is_forbidden e
      then reply 403 "Kubernetes authorization denied"
      else internal e

  abbrev pub conflicting : Error → Response
  conflicting e = reply 409 (site.error_text e)

  -- Both parts of `governanceRequestContext`: an identity and a CSRF token that is not empty.
  abbrev pub has_token : Option String → Bool
  has_token none = false
  has_token (some token) = not (is_empty token)

  abbrev pub request_context :
      Option AuthenticatedIdentity → Mutation → Handled AuthenticatedIdentity
  request_context who m = elim (known_identity who) [
    | none ↦ refused (reply 401 "Unauthorized")
    | some identity ↦
        if has_token m.csrf_token then passed identity else refused (reply 401 "Unauthorized")
  ]

  abbrev pub require_admin : Option AuthenticatedIdentity → Mutation → Handled AuthenticatedIdentity
  require_admin who m = do
    identity ← request_context who m
    demand (contains identity.roles site.admin_role) 403 "Forbidden"
    passed identity

  abbrev pub decoded {ℓ} : {A : Type ℓ} → Result A → Handled A
  decoded answer = attempt internal answer

  abbrev pub pending_request : String → Handled SandboxAccessRequest
  pending_request name = do
    demand (x.is_dns1123_subdomain name) 400 "Invalid access request name"
    object ← attempt resource_error (r.request name)
    request ← decoded object
    demand (request_state request.status == pending_state) 409
        "Access request has already been decided"
    passed request

  -- `governanceIdentity` of an administrator, without tenant and team.
  abbrev pub approver_of : AuthenticatedIdentity → GovernanceIdentity
  approver_of identity = record {
    tenant_id = identity.tenant_id;
    object_id = identity.object_id;
    display_name = identity.name;
    logical_tenant = "";
    team = "";
  }

  -- The message of a redirect.
  abbrev pub request_message : String → String → String
  request_message name what =
      String.◌++◌ "Access request " (String.◌++◌ name (String.◌++◌ " " what))
