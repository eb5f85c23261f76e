-- ===== src/Dashboard/Requests/Checks.antt =====
-- cmd/aks-sandbox-dashboard/governance.go: the guards of `createAccessRequest`.
use Prim.Native.String
use opensandbox_aks_governan.Base.{
  ℕ, ℤ, lt_int, times64, String, true, false, not, ◌&&◌, ◌==◌, string_eq, eq_iff, List, [], ◌∷◌,
  ◌≡◌, refl, ap, subst, ◌∙◌, Result, ok, err, arith, NoneOf,
}
use opensandbox_aks_governan.Api.{
  second, SandboxAccessRequestSpec, SandboxAccessRequest, SandboxEgressEvent,
}
use opensandbox_aks_governan.Externals.{Externals}
use opensandbox_aks_governan.Governance.Request.{validate_access_request_spec}
use opensandbox_aks_governan.Facade.Lifecycle.{reply}
use opensandbox_aks_governan.Dashboard.Handled.{
  passed, attempt, >>=-eq-passed, demand-eq-passed, attempt-eq-passed, passed-injective,
}
use opensandbox_aks_governan.Dashboard.Principals.{PrincipalTenantScopes, tenant_allowed}
use opensandbox_aks_governan.Dashboard.Forms.{
  Mutation, Form, form_value, parse_duration_minutes, parse_mutation,
}
use opensandbox_aks_governan.Dashboard.Requests.{
  Site, Reads, internal, decoded, max_access, duplicate_in, has_active_duplicate, event_assignment,
  resource_error, conflicting,
}
use opensandbox_aks_governan.Dashboard.Requests.Facts.{IsInTheWay, duplicate_in-NoneOf}
use opensandbox_aks_governan.Dashboard.Requests.Submissions.{
  requests_for, canonical_event, target_of, denied_event, check_event, check_spec, creation_form,
}
use opensandbox_aks_governan.Dashboard.Requests.Laws.{not-true, demand-passed}

not_duplicate :
    (now : ℕ) (spec : SandboxAccessRequestSpec)
    (answer : Result (List (Result SandboxAccessRequest)))
    → elim answer [ err e ↦ err e | ok list ↦ duplicate_in now spec list ] ≡ ok false
    → (list : List (Result SandboxAccessRequest)) × (answer ≡ ok list)
      × NoneOf (IsInTheWay now spec) list
not_duplicate now spec (err e) h = cc
not_duplicate now spec (ok list) h = (list, refl, duplicate_in-NoneOf now spec list h)

module _ (x : Externals) (site : Site) (r : Reads) where
  -- A valid spec that no listed request stands in the way of.
  pub record IsNew (spec : SandboxAccessRequestSpec) : Type 0 where
    pub valid : validate_access_request_spec x spec ≡ ok tt
    pub requests : List (Result SandboxAccessRequest)
    pub listed : r.requests ≡ ok requests
    pub unique : NoneOf (IsInTheWay r.now spec) requests

  pub check_spec-IsNew :
      (spec sent : SandboxAccessRequestSpec)
      → check_spec x site r spec ≡ passed sent
      → IsNew spec × (spec ≡ sent)
  unfolding check_spec
  check_spec-IsNew spec sent h =
      let (u, valid, h1) =
        >>=-eq-passed
          (attempt (λ e. reply 400 (String.◌++◌ "Invalid access request: " (site.error_text e)))
            (validate_access_request_spec x spec))
          _ h in
      let (duplicate, looked, h2) =
        >>=-eq-passed (attempt (internal) (has_active_duplicate spec r)) _ h1 in
      let (fresh, h3) =
        demand-eq-passed (not duplicate) 409
          "An active request already exists for this exact target" _ h2 in
      let found : has_active_duplicate spec r ≡ ok false =
        attempt-eq-passed internal (has_active_duplicate spec r) looked
        ∙ ap ok (not-true duplicate fresh) in
      let (requests, listed, unique) = not_duplicate r.now spec r.requests found in
      (
        record {
          valid = attempt-eq-passed _ (validate_access_request_spec x spec) valid;
          requests = requests;
          listed = listed;
          unique = unique;
        },
        passed-injective h3,
      )

  -- A denied event of one of these tenants, with a canonical target.
  pub record IsDenied (tenants : List String) (name : String) (event : SandboxEgressEvent)
      : Type 0 where
    pub read : r.event name ≡ ok (ok event)
    pub denied : event.allowed ≡ false
    pub source : event.decision_source ≡ "deny"
    pub owned : tenant_allowed tenants event.logical_tenant ≡ true
    pub canonical : canonical_event x site r event (target_of x site r event) ≡ true

  pub denied_event-IsDenied :
      (tenants : List String) (name : String) (event : SandboxEgressEvent)
      → denied_event x site r tenants name ≡ passed event
      → IsDenied tenants name event
  unfolding denied_event
  denied_event-IsDenied tenants name event h =
      let (object, read, h1) =
        >>=-eq-passed (attempt (resource_error x site r) (r.event name)) _ h in
      let (found, converted, h2) = >>=-eq-passed (decoded x site r object) _ h1 in
      let (denied, h3) =
        demand-eq-passed (not found.allowed && found.decision_source == "deny") 409
          "Access can only be requested from a denied event" _ h2 in
      let (owned, h4) =
        demand-eq-passed (tenant_allowed tenants found.logical_tenant) 403
          "Denied event belongs to another logical tenant" _ h3 in
      let (canonical, h5) =
        demand-eq-passed (canonical_event x site r found (target_of x site r found)) 409
          "Denied event target is invalid" _ h4 in
      subst (IsDenied tenants name) (passed-injective h5) (record {
        read =
            attempt-eq-passed (resource_error x site r) (r.event name) read
            ∙ ap ok (attempt-eq-passed internal object converted);
        denied = ground (arith);
        source = ground (arith, eq_iff found.decision_source "deny");
        owned = owned;
        canonical = canonical;
      })

  -- The event's assignment is current, and the duration is within the tenant's budget.
  pub record IsRequestable (event : SandboxEgressEvent) (duration : ℤ) : Type 0 where
    pub current : event_assignment event (r.assignment event.assignment_ref.name) ≡ ok tt
    pub budget : ℤ
    pub granted : max_access event.logical_tenant r ≡ ok budget
    pub within_budget : lt_int (times64 budget second) duration ≡ false

  pub check_event-IsRequestable :
      (event : SandboxEgressEvent) (duration : ℤ)
      → check_event x site r event duration ≡ passed tt
      → IsRequestable event duration
  unfolding check_event
  check_event-IsRequestable event duration h =
      let (u, current, h1) =
        >>=-eq-passed
          (attempt (conflicting x site r)
            (event_assignment event (r.assignment event.assignment_ref.name)))
          _ h in
      let (budget, granted, h2) =
        >>=-eq-passed (attempt (conflicting x site r) (max_access event.logical_tenant r)) _ h1 in
      record {
        current =
            attempt-eq-passed (conflicting x site r)
              (event_assignment event (r.assignment event.assignment_ref.name)) current;
        budget = budget;
        granted =
            attempt-eq-passed (conflicting x site r) (max_access event.logical_tenant r) granted;
        within_budget = not-true _ (
            demand-passed (not (lt_int (times64 budget second) duration)) 400
              "Requested duration exceeds the tenant access budget" h2);
      }

  pub record IsCreationForm (m : Mutation) (form : Form) (duration : ℤ) : Type 0 where
    pub parsed :
        parse_mutation x site.equal_fold site.public_origin
          ("csrf" ∷ "eventName" ∷ "reason" ∷ "durationMinutes" ∷ [])
          m
        ≡ passed form
    pub timed : parse_duration_minutes (form_value "durationMinutes" form) ≡ ok duration

  pub creation_form-IsCreationForm :
      (m : Mutation) (input : Form × ℤ)
      → creation_form x site r m ≡ passed input
      → IsCreationForm m input.0 input.1
  unfolding creation_form
  creation_form-IsCreationForm m input h =
      let (form, parsed, h1) =
        >>=-eq-passed
          (parse_mutation x site.equal_fold site.public_origin
            ("csrf" ∷ "eventName" ∷ "reason" ∷ "durationMinutes" ∷ []) m)
          _ h in
      let (named, h2) =
        demand-eq-passed (x.is_dns1123_subdomain (form_value "eventName" form)) 400
          "Invalid event name" _ h1 in
      let (duration, timed, h3) =
        >>=-eq-passed
          (attempt (λ e. reply 400 (site.error_text e))
            (parse_duration_minutes (form_value "durationMinutes" form)))
          _ h2 in
      subst (λ z. IsCreationForm m z.0 z.1) (passed-injective h3)
        (record {
          parsed = parsed;
          timed =
              attempt-eq-passed _ (parse_duration_minutes (form_value "durationMinutes" form))
                timed;
        })

  pub requests_for-requester :
      (answer : Result PrincipalTenantScopes) (tenants : List String)
      → requests_for x site r answer ≡ passed tenants
      → (scopes : PrincipalTenantScopes) × (answer ≡ ok scopes) × (scopes.requester ≡ tenants)
  requests_for-requester (err e) tenants h = cc
  requests_for-requester (ok scopes) tenants h = from scopes.requester refl
    where
      from :
          (list : List String)
          → scopes.requester ≡ list
          → (s : PrincipalTenantScopes) × (ok scopes ≡ ok s) × (s.requester ≡ tenants)
      from [] same = absurd (cc (rw same at h))
      from (t ∷ rest) same = (scopes, refl, same ∙ passed-injective (rw same at h))
