-- ===== src/Dashboard/Requests/Proposals.antt =====
-- cmd/aks-sandbox-dashboard/governance.go: what `createAccessRequest` asks for, in terms of the objects
-- that were read and of the form.
use opensandbox_aks_governan.Base.{
  ℕ, ℤ, pos, lt_int, times64, true, false, string_eq, eq_iff, Option, List, [], ◌∷◌, ◌≡◌, refl, sym,
  subst, arith, contains, Result, ok, err, NoneOf,
}
use opensandbox_aks_governan.Api.{
  second, SandboxAccessRequestSpec, SandboxAccessRequest, SandboxEgressEvent,
}
use opensandbox_aks_governan.Cluster.{resolved_name}
use opensandbox_aks_governan.Externals.{Externals}
use opensandbox_aks_governan.Governance.Target.{Target, normalize_target}
use opensandbox_aks_governan.Governance.Request.{validate_access_request_spec}
use opensandbox_aks_governan.Dashboard.Handled.{passed}
use opensandbox_aks_governan.Dashboard.Principals.{AuthenticatedIdentity, PrincipalTenantScopes}
use opensandbox_aks_governan.Dashboard.Bindings.{IsKnown, IsBound, load_principal_scopes-IsBound}
use opensandbox_aks_governan.Dashboard.Forms.{Mutation, Form, form_value}
use opensandbox_aks_governan.Dashboard.Forms.Laws.{IsDuration}
use opensandbox_aks_governan.Dashboard.Forms.Mutations.{IsOwnMutation, parse_mutation-IsOwnMutation}
use opensandbox_aks_governan.Dashboard.Requests.{Site, Reads}
use opensandbox_aks_governan.Dashboard.Requests.Facts.{
  IsBudget, max_access-IsBudget, IsCurrent, event_assignment-IsCurrent, IsInTheWay,
}
use opensandbox_aks_governan.Dashboard.Requests.Submissions.{
  whole_seconds, canonical_event, spec_of, creation,
}
use opensandbox_aks_governan.Dashboard.Requests.Checks.{IsNew, IsDenied, IsRequestable}
use opensandbox_aks_governan.Dashboard.Requests.Creations.{creation-IsCreated}
use opensandbox_aks_governan.Dashboard.Requests.Lawful.{request_context-IsKnown}

-- The target that the event's own fields name.
abbrev pub its_target : SandboxEgressEvent → Target
its_target e = record { backend = e.backend; method = e.method; host = e.host; path = e.path }

module _ (x : Externals) (site : Site) (r : Reads) where
  canonical-target :
      (event : SandboxEgressEvent) (answer : Result Target)
      → canonical_event x site r event answer ≡ true
      → answer ≡ ok (its_target event)
  canonical-target event (err e) h = cc
  canonical-target event (ok t) h =
      let backend : t.backend ≡ event.backend = ground (arith, eq_iff t.backend event.backend) in
      let method : t.method ≡ event.method = ground (arith, eq_iff t.method event.method) in
      let host : t.host ≡ event.host = ground (arith, eq_iff t.host event.host) in
      let path : t.path ≡ event.path = ground (arith, eq_iff t.path event.path) in
      λ i. ok (record { backend = backend i; method = method i; host = host i; path = path i })

  -- A new request for what a denied event of one of the requester's tenants was denied.
  pub record IsProposal (who : Option AuthenticatedIdentity) (m : Mutation)
      (spec : SandboxAccessRequestSpec) : Type 0 where
    pub identity : AuthenticatedIdentity
    pub known : IsKnown who identity
    pub scopes : PrincipalTenantScopes
    pub bound : IsBound r.bindings identity scopes
    pub form : Form
    pub own_form :
        IsOwnMutation x site.equal_fold site.public_origin
          ("csrf" ∷ "eventName" ∷ "reason" ∷ "durationMinutes" ∷ [])
          m
          form
    pub event : SandboxEgressEvent
    pub read : r.event (form_value "eventName" form) ≡ ok (ok event)
    pub denied : event.allowed ≡ false
    pub source : event.decision_source ≡ "deny"
    pub own_tenant : contains scopes.requester event.logical_tenant ≡ true
    pub canonical :
        normalize_target x event.backend event.method event.host event.path ≡ ok (its_target event)
    pub current :
        IsCurrent
          (r.assignment event.assignment_ref.name)
          event.assignment_ref
          event.capability_bundle_revision
    pub same_bundle :
        resolved_name current.assignment.status.resolved ≡ event.capability_bundle_name
    pub budget : ℤ
    pub budgeted : IsBudget r.policies event.logical_tenant budget
    pub duration : ℕ
    pub bounds : IsDuration duration
    pub within_budget : lt_int (times64 budget second) (pos duration) ≡ false
    pub asked : spec ≡ record {
      assignment_ref = event.assignment_ref;
      pod_uid = event.pod_uid;
      base_policy_revision = event.capability_bundle_revision;
      backend = event.backend;
      method = event.method;
      host = event.host;
      path = event.path;
      reason = form_value "reason" form;
      requester = record {
        tenant_id = identity.tenant_id;
        object_id = identity.object_id;
        display_name = identity.name;
        logical_tenant = event.logical_tenant;
        team = event.team;
      };
      requested_duration_seconds = whole_seconds (pos duration);
    }
    pub valid : validate_access_request_spec x spec ≡ ok tt
    pub requests : List (Result SandboxAccessRequest)
    pub listed : r.requests ≡ ok requests
    pub unique : NoneOf (IsInTheWay r.now spec) requests

  proposal :
      (who : Option AuthenticatedIdentity) (m : Mutation) (identity : AuthenticatedIdentity)
      (scopes : PrincipalTenantScopes) (form : Form) (event : SandboxEgressEvent) (duration : ℕ)
      (requests : List (Result SandboxAccessRequest))
      → IsKnown who identity
      → IsBound r.bindings identity scopes
      → IsOwnMutation x site.equal_fold site.public_origin
          ("csrf" ∷ "eventName" ∷ "reason" ∷ "durationMinutes" ∷ [])
          m
          form
      → IsDenied x site r scopes.requester (form_value "eventName" form) event
      → IsDuration duration
      → IsRequestable x site r event (pos duration)
      → validate_access_request_spec x
          (spec_of x site r identity event (form_value "reason" form) (pos duration))
        ≡ ok tt
      → r.requests ≡ ok requests
      → NoneOf
          (IsInTheWay r.now
            (spec_of x site r identity event (form_value "reason" form) (pos duration)))
          requests
      → IsProposal who m (spec_of x site r identity event (form_value "reason" form) (pos duration))
  proposal who m identity scopes form event duration requests known bound own denied bounds
        asked_for valid listed unique =
      let (current, same_bundle) = event_assignment-IsCurrent event _ asked_for.current in
      record {
        identity = identity;
        known = known;
        scopes = scopes;
        bound = bound;
        form = form;
        own_form = own;
        event = event;
        read = denied.read;
        denied = denied.denied;
        source = denied.source;
        own_tenant = denied.owned;
        canonical = canonical-target event _ denied.canonical;
        current = current;
        same_bundle = same_bundle;
        budget = asked_for.budget;
        budgeted = max_access-IsBudget event.logical_tenant r asked_for.budget asked_for.granted;
        duration = duration;
        bounds = bounds;
        within_budget = asked_for.within_budget;
        asked = refl;
        valid = valid;
        requests = requests;
        listed = listed;
        unique = unique;
      }

  -- A spec passes only for a known identity with one live binding, with a form of the site's own. Its
  -- target, assignment, Pod, policy revision and tenant are those of the stored event that the form
  -- names, which was denied, has a canonical target and is of a tenant that the binding gives. The
  -- event's assignment is there, is not being deleted and has its UID, bundle and policy revision. The
  -- requester is the identity, the duration is within one minute and eight hours and within the budget
  -- of the tenant's one enabled policy, the spec is valid, and no listed request that is pending or in
  -- force has the same assignment, policy revision and target.
  pub creation-IsProposal :
      (who : Option AuthenticatedIdentity) (m : Mutation) (spec : SandboxAccessRequestSpec)
      → creation x site r who m ≡ passed spec
      → IsProposal who m spec
  creation-IsProposal who m spec h =
      let c = creation-IsCreated x site r who m spec h in
      let fresh = subst (IsNew x site r) c.asked c.fresh in
      subst (IsProposal who m) (sym c.asked) (
        proposal who m c.identity c.scopes c.form c.event c.duration fresh.requests
          (request_context-IsKnown x site r who m c.identity c.known)
          (load_principal_scopes-IsBound c.identity r.bindings c.scopes c.bound)
          (parse_mutation-IsOwnMutation x site.equal_fold site.public_origin _ m c.form c.submitted)
          c.denied c.bounds c.requestable fresh.valid fresh.listed fresh.unique)
