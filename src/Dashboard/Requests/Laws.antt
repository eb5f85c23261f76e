-- ===== src/Dashboard/Requests/Laws.antt =====
-- cmd/aks-sandbox-dashboard/governance.go: what a handler that passes all its guards has found.
use opensandbox_aks_governan.Base.{
  ℕ, ℤ, lt_int, times64, String, Bool, true, false, not, ◌≡◌, refl, ap, subst, ◌∙◌, ok,
}
use opensandbox_aks_governan.Api.{second, SandboxAccessRequestSpec, SandboxAccessRequest}
use opensandbox_aks_governan.Cluster.{AssignmentObject, BundleObject}
use opensandbox_aks_governan.Externals.{Externals}
use opensandbox_aks_governan.Governance.Request.{validate_access_request_spec}
use opensandbox_aks_governan.Facade.Lifecycle.{reply}
use opensandbox_aks_governan.Facade.Templates.{tenant_of_bundle}
use opensandbox_aks_governan.Dashboard.Handled.{
  passed, attempt, demand, >>=-eq-passed, demand-eq-passed, attempt-eq-passed, passed-injective,
}
use opensandbox_aks_governan.Dashboard.Principals.{
  AuthenticatedIdentity, load_principal_scopes, administers,
}
use opensandbox_aks_governan.Dashboard.Requests.{
  Site, Reads, reason_allowed, max_access, request_assignment, pending_request, resource_error,
  conflicting,
}
use opensandbox_aks_governan.Dashboard.Requests.Decisions.{
  decidable_request, access_budget, check_approval,
}

pub not-true : (b : Bool) → not b ≡ true → b ≡ false
not-true true h = absurd (cc)
not-true false h = refl

-- `demand` at the end of a block.
pub demand-passed :
    (test : Bool) (status : ℕ) (text : String) → demand test status text ≡ passed tt → test ≡ true
demand-passed true status text h = refl
demand-passed false status text h = cc

module _ (x : Externals) (site : Site) (r : Reads) where
  -- The tenant's budget, and the objects it was found by.
  pub record Budgeted (spec : SandboxAccessRequestSpec) (budget : ℤ) : Type 0 where
    pub assignment : AssignmentObject
    pub bundle : BundleObject
    pub assigned : r.assignment_later spec.assignment_ref.name ≡ ok assignment
    pub governed : r.bundle assignment.bundle_name ≡ ok bundle
    pub granted : max_access (tenant_of_bundle bundle) r ≡ ok budget

  pub access_budget-Budgeted :
      (spec : SandboxAccessRequestSpec) (budget : ℤ)
      → access_budget x site r spec ≡ passed budget
      → Budgeted spec budget
  unfolding access_budget
  access_budget-Budgeted spec budget h =
      let (assignment, assigned, h1) =
        >>=-eq-passed
          (attempt (resource_error x site r) (r.assignment_later spec.assignment_ref.name)) _ h in
      let (bundle, governed, h2) =
        >>=-eq-passed (attempt (resource_error x site r) (r.bundle assignment.bundle_name)) _ h1 in
      record {
        assignment = assignment;
        bundle = bundle;
        assigned = attempt-eq-passed (resource_error x site r) _ assigned;
        governed = attempt-eq-passed (resource_error x site r) _ governed;
        granted = attempt-eq-passed (conflicting x site r) _ h2;
      }

  -- A valid request for at least this duration, of the current assignment and policy revision, and a
  -- duration within the tenant's budget.
  pub record Approvable (spec : SandboxAccessRequestSpec) (duration : ℤ) : Type 0 where
    pub valid : validate_access_request_spec x spec ≡ ok tt
    pub as_requested : lt_int (times64 spec.requested_duration_seconds second) duration ≡ false
    pub current : request_assignment spec (r.assignment spec.assignment_ref.name) ≡ ok tt
    pub budget : ℤ
    pub budgeted : Budgeted spec budget
    pub within_budget : lt_int (times64 budget second) duration ≡ false

  pub check_approval-Approvable :
      (spec : SandboxAccessRequestSpec) (duration : ℤ)
      → check_approval x site r spec duration ≡ passed tt
      → Approvable spec duration
  unfolding check_approval
  check_approval-Approvable spec duration h =
      let (u, valid, h1) =
        >>=-eq-passed
          (attempt (λ e. reply 409 "Access request is invalid")
            (validate_access_request_spec x spec))
          _ h in
      let (as_requested, h2) =
        demand-eq-passed (not (lt_int (times64 spec.requested_duration_seconds second) duration))
          400 "Approved duration exceeds the requested duration" _ h1 in
      let (v, current, h3) =
        >>=-eq-passed
          (attempt (conflicting x site r)
            (request_assignment spec (r.assignment spec.assignment_ref.name)))
          _ h2 in
      let (budget, found, h4) = >>=-eq-passed (access_budget x site r spec) _ h3 in
      let within =
        demand-passed (not (lt_int (times64 budget second) duration)) 400
          "Approved duration exceeds the tenant access budget" h4 in
      record {
        valid = attempt-eq-passed _ (validate_access_request_spec x spec) valid;
        as_requested = not-true _ as_requested;
        current =
            attempt-eq-passed (conflicting x site r)
              (request_assignment spec (r.assignment spec.assignment_ref.name)) current;
        budget = budget;
        budgeted = access_budget-Budgeted spec budget found;
        within_budget = not-true _ within;
      }

  -- A decision that the administrator may take: on a request that was pending, with a reason.
  pub record Decidable (identity : AuthenticatedIdentity) (reason name : String)
      (request : SandboxAccessRequest) : Type 0 where
    pub reasoned : reason_allowed reason ≡ true
    pub pending : pending_request x site r name ≡ passed request
    pub administered :
        administers
          (load_principal_scopes r.bindings identity)
          request.spec.requester.logical_tenant
        ≡ true

  pub decidable_request-Decidable :
      (identity : AuthenticatedIdentity) (reason name : String) (request : SandboxAccessRequest)
      → decidable_request x site r identity reason name ≡ passed request
      → Decidable identity reason name request
  unfolding decidable_request
  decidable_request-Decidable identity reason name request h =
      let (reasoned, h1) =
        demand-eq-passed (reason_allowed reason) 400 "Decision reason must be 3-512 characters" _
          h in
      let (found, pending, h2) = >>=-eq-passed (pending_request x site r name) _ h1 in
      let (administered, h3) =
        demand-eq-passed
          (administers (load_principal_scopes r.bindings identity)
            found.spec.requester.logical_tenant)
          403 "Administrator is not authorized for this logical tenant" _ h2 in
      let same = passed-injective h3 in
      record {
        reasoned = reasoned;
        pending = pending ∙ ap passed same;
        administered =
            subst
              (λ q.
                administers (load_principal_scopes r.bindings identity)
                  q.spec.requester.logical_tenant
                ≡ true)
              same administered;
      }
