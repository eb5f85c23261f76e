-- ===== src/Dashboard/Requests/Lawful.antt =====
-- cmd/aks-sandbox-dashboard/governance.go: what approving and creating an access request ask for,
-- in terms of the objects that were read and of the form.
use Prim.Native.String.{len}
use opensandbox_aks_governan.Base.{
  ℕ, ◌+◌, ◌≤◌, ℤ, pos, lt_int, times64, String, true, false, ◌==◌, string_eq, eq_iff, Option, none,
  some, [], ◌∷◌, ◌≡◌, ◌⊎◌, refl, ap, subst, ◌∙◌, arith, is_empty, contains, trim_space, Bool-cases,
  inl, inr, ok, if◌then◌else◌,
}
use opensandbox_aks_governan.Api.{second, SandboxAccessRequestStatus, SandboxAccessRequest}
use opensandbox_aks_governan.Cluster.{AssignmentObject, BundleObject}
use opensandbox_aks_governan.Externals.{Externals}
use opensandbox_aks_governan.Governance.Request.{validate_identity, validate_access_request_spec}
use opensandbox_aks_governan.Facade.Lifecycle.{reply}
use opensandbox_aks_governan.Facade.Templates.{tenant_of_bundle}
use opensandbox_aks_governan.Dashboard.Handled.{
  passed, refused, attempt, >>=-eq-passed, demand-eq-passed, attempt-eq-passed, passed-injective,
}
use opensandbox_aks_governan.Dashboard.Principals.{
  AuthenticatedIdentity, PrincipalTenantScopes, known_identity,
}
use opensandbox_aks_governan.Dashboard.Bindings.{IsKnown, IsBound, known_identity-IsKnown}
use opensandbox_aks_governan.Dashboard.Forms.{Mutation, Form, form_value}
use opensandbox_aks_governan.Dashboard.Forms.Laws.{IsDuration}
use opensandbox_aks_governan.Dashboard.Forms.Mutations.{IsOwnMutation, parse_mutation-IsOwnMutation}
use opensandbox_aks_governan.Dashboard.Requests.{
  Site, Reads, pending_state, request_state, internal, resource_error, has_token, request_context,
  require_admin, decoded, pending_request, approver_of,
}
use opensandbox_aks_governan.Dashboard.Requests.Facts.{
  IsBudget, max_access-IsBudget, IsCurrent, request_assignment-IsCurrent, state_pending,
  reason_allowed-bounds, administers-IsBound,
}
use opensandbox_aks_governan.Dashboard.Requests.Decisions.{approval}
use opensandbox_aks_governan.Dashboard.Requests.Approvals.{approval-IsApproved}

module _ (x : Externals) (site : Site) (r : Reads) where
  pub request_context-IsKnown :
      (who : Option AuthenticatedIdentity) (m : Mutation) (identity : AuthenticatedIdentity)
      → request_context x site r who m ≡ passed identity
      → IsKnown who identity
  request_context-IsKnown who m identity h = from (known_identity who) refl h
    where
      same_some : {a b : AuthenticatedIdentity} → passed a ≡ passed b → some a ≡ some b
      same_some e = cc

      from :
          (answer : Option AuthenticatedIdentity)
          → known_identity who ≡ answer
          → elim answer [
            | none ↦ refused (reply 401 "Unauthorized")
            | some i ↦
                if has_token x site r m.csrf_token
                then passed i
                else refused (reply 401 "Unauthorized")
          ]
            ≡ passed identity
          → IsKnown who identity
      from none same k = cc
      from (some i) same k = elim (Bool-cases (has_token x site r m.csrf_token)) [
        | inl set ↦
            let known : known_identity who ≡ some identity = same ∙ same_some (rw set at k) in
            known_identity-IsKnown who identity known
        | inr unset ↦ absurd (cc (rw unset at k))
      ]

  require_admin-IsKnown :
      (who : Option AuthenticatedIdentity) (m : Mutation) (identity : AuthenticatedIdentity)
      → require_admin x site r who m ≡ passed identity
      → IsKnown who identity × (contains identity.roles site.admin_role ≡ true)
  require_admin-IsKnown who m identity h =
      let (i, context, h1) = >>=-eq-passed (request_context x site r who m) _ h in
      let (role, h2) = demand-eq-passed (contains i.roles site.admin_role) 403 "Forbidden" _ h1 in
      let same = passed-injective h2 in
      (
        request_context-IsKnown who m identity (context ∙ ap passed same),
        subst (λ z. contains z.roles site.admin_role ≡ true) same role,
      )

  pending_request-read :
      (name : String) (request : SandboxAccessRequest)
      → pending_request x site r name ≡ passed request
      → (r.request name ≡ ok (ok request))
        × ((is_empty request.status.state ≡ true) ⊎ (request.status.state ≡ "Pending"))
  pending_request-read name request h =
      let (named, h1) =
        demand-eq-passed (x.is_dns1123_subdomain name) 400 "Invalid access request name" _ h in
      let (object, got, h2) =
        >>=-eq-passed (attempt (resource_error x site r) (r.request name)) _ h1 in
      let (found, converted, h3) = >>=-eq-passed (decoded x site r object) _ h2 in
      let (pending, h4) =
        demand-eq-passed (request_state found.status == pending_state) 409
          "Access request has already been decided" _ h3 in
      let same = passed-injective h4 in
      (
        attempt-eq-passed (resource_error x site r) (r.request name) got
            ∙ ap ok (attempt-eq-passed internal object converted ∙ ap ok same),
        state_pending request.status (
            subst (λ q. request_state q.status ≡ pending_state) same
              (ground (arith, eq_iff (request_state found.status) pending_state))),
      )

  -- An approval by an administrator of the request's tenant, with the objects that it rests on.
  pub record IsLawful (who : Option AuthenticatedIdentity) (m : Mutation) (name : String)
      (request : SandboxAccessRequest) (status : SandboxAccessRequestStatus) : Type 0 where
    pub identity : AuthenticatedIdentity
    pub known : IsKnown who identity
    pub role : contains identity.roles site.admin_role ≡ true
    pub scopes : PrincipalTenantScopes
    pub bound : IsBound r.bindings identity scopes
    pub own_tenant : contains scopes.admin request.spec.requester.logical_tenant ≡ true
    pub form : Form
    pub own_form :
        IsOwnMutation x site.equal_fold site.public_origin
          ("csrf" ∷ "decisionReason" ∷ "durationMinutes" ∷ [])
          m
          form
    pub reason :
        (3 ≤ len (trim_space (form_value "decisionReason" form)))
        × (len (form_value "decisionReason" form) ≤ 512)
    pub read : r.request name ≡ ok (ok request)
    pub pending : (is_empty request.status.state ≡ true) ⊎ (request.status.state ≡ "Pending")
    pub valid : validate_access_request_spec x request.spec ≡ ok tt
    pub current :
        IsCurrent
          (r.assignment request.spec.assignment_ref.name)
          request.spec.assignment_ref
          request.spec.base_policy_revision
    pub assignment : AssignmentObject
    pub assigned : r.assignment_later request.spec.assignment_ref.name ≡ ok assignment
    pub bundle : BundleObject
    pub governed : r.bundle assignment.bundle_name ≡ ok bundle
    pub budget : ℤ
    pub budgeted : IsBudget r.policies (tenant_of_bundle bundle) budget
    pub duration : ℕ
    pub bounds : IsDuration duration
    pub as_requested :
        lt_int (times64 request.spec.requested_duration_seconds second) (pos duration) ≡ false
    pub within_budget : lt_int (times64 budget second) (pos duration) ≡ false
    pub approver : validate_identity x (approver_of x site r identity) ≡ ok tt
    pub sent : status ≡ record {
      state = "Approved";
      approver = some (approver_of x site r identity);
      decision_reason = form_value "decisionReason" form;
      approved_at = some r.now;
      expires_at = some (r.now + duration);
    }

  -- An approval passes only for a known identity that has the administrator's role and whose one
  -- binding administers the tenant of the request's requester, with a form of the site's own and a
  -- reason of 3 to 512 characters. The request is the one stored under the name, is pending and valid;
  -- its assignment is there, is not being deleted and has the request's UID and policy revision. The
  -- duration is within one minute and eight hours, not above what was requested, and not above what
  -- the one enabled policy of the tenant of the assignment's bundle allows. What is sent is Approved
  -- by that identity with that reason, from now until now plus the duration.
  pub approval-IsLawful :
      (who : Option AuthenticatedIdentity) (m : Mutation) (name : String)
      (request : SandboxAccessRequest) (status : SandboxAccessRequestStatus)
      → approval x site r who m name ≡ passed (request, status)
      → IsLawful who m name request status
  approval-IsLawful who m name request status h =
      let p = approval-IsApproved x site r who m name (request, status) h in
      let (known, role) = require_admin-IsKnown who m p.identity p.submitted.administrator in
      let (scopes, bound, own) =
        administers-IsBound r p.identity request.spec.requester.logical_tenant
          p.decidable.administered in
      let (read, pending) = pending_request-read name request p.decidable.pending in
      record {
        identity = p.identity;
        known = known;
        role = role;
        scopes = scopes;
        bound = bound;
        own_tenant = own;
        form = p.form;
        own_form =
            parse_mutation-IsOwnMutation x site.equal_fold site.public_origin _ m p.form
              p.submitted.parsed;
        reason = reason_allowed-bounds _ p.decidable.reasoned;
        read = read;
        pending = pending;
        valid = p.approvable.valid;
        current = request_assignment-IsCurrent request.spec _ p.approvable.current;
        assignment = p.approvable.budgeted.assignment;
        assigned = p.approvable.budgeted.assigned;
        bundle = p.approvable.budgeted.bundle;
        governed = p.approvable.budgeted.governed;
        budget = p.approvable.budget;
        budgeted = max_access-IsBudget _ r _ p.approvable.budgeted.granted;
        duration = p.duration;
        bounds = p.bounds;
        as_requested = p.approvable.as_requested;
        within_budget = p.approvable.within_budget;
        approver = p.approver_valid;
        sent = p.sent;
      }
