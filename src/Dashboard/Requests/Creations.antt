-- ===== src/Dashboard/Requests/Creations.antt =====
-- cmd/aks-sandbox-dashboard/governance.go: `createAccessRequest`.
use opensandbox_aks_governan.Base.{
  ℕ, ℤ, pos, String, string_eq, Option, List, [], ◌∷◌, ◌≡◌, sym, ap, subst, ◌∙◌, ok,
}
use opensandbox_aks_governan.Api.{SandboxAccessRequestSpec, SandboxEgressEvent}
use opensandbox_aks_governan.Externals.{Externals}
use opensandbox_aks_governan.Dashboard.Handled.{passed, >>=-eq-passed}
use opensandbox_aks_governan.Dashboard.Principals.{
  AuthenticatedIdentity, PrincipalTenantScopes, load_principal_scopes,
}
use opensandbox_aks_governan.Dashboard.Forms.{Mutation, Form, form_value, parse_mutation}
use opensandbox_aks_governan.Dashboard.Forms.Laws.{IsDuration, parse_duration_minutes-IsDuration}
use opensandbox_aks_governan.Dashboard.Requests.{Site, Reads, request_context}
use opensandbox_aks_governan.Dashboard.Requests.Submissions.{
  requests_for, spec_of, denied_event, check_event, creation_form, creation,
}
use opensandbox_aks_governan.Dashboard.Requests.Checks.{
  IsNew, IsDenied, IsRequestable, IsCreationForm, check_spec-IsNew, denied_event-IsDenied,
  check_event-IsRequestable, creation_form-IsCreationForm, requests_for-requester,
}

module _ (x : Externals) (site : Site) (r : Reads) where
  -- What a request is created from: a denied event of one of the requester's tenants.
  pub record IsCreated (who : Option AuthenticatedIdentity) (m : Mutation)
      (spec : SandboxAccessRequestSpec) : Type 0 where
    pub identity : AuthenticatedIdentity
    pub scopes : PrincipalTenantScopes
    pub form : Form
    pub event : SandboxEgressEvent
    pub duration : ℕ
    pub known : request_context x site r who m ≡ passed identity
    pub bound : load_principal_scopes r.bindings identity ≡ ok scopes
    pub submitted :
        parse_mutation x site.equal_fold site.public_origin
          ("csrf" ∷ "eventName" ∷ "reason" ∷ "durationMinutes" ∷ [])
          m
        ≡ passed form
    pub denied : IsDenied x site r scopes.requester (form_value "eventName" form) event
    pub bounds : IsDuration duration
    pub requestable : IsRequestable x site r event (pos duration)
    pub asked : spec ≡ spec_of x site r identity event (form_value "reason" form) (pos duration)
    pub fresh : IsNew x site r spec

  creation_parts-IsCreated :
      (who : Option AuthenticatedIdentity) (m : Mutation) (spec : SandboxAccessRequestSpec)
      (identity : AuthenticatedIdentity) (tenants : List String) (form : Form) (duration : ℤ)
      (event : SandboxEgressEvent)
      → request_context x site r who m ≡ passed identity
      → requests_for x site r (load_principal_scopes r.bindings identity) ≡ passed tenants
      → IsCreationForm x site r m form duration
      → IsDenied x site r tenants (form_value "eventName" form) event
      → IsRequestable x site r event duration
      → IsNew x site r (spec_of x site r identity event (form_value "reason" form) duration)
        × (spec_of x site r identity event (form_value "reason" form) duration ≡ spec)
      → IsCreated who m spec
  creation_parts-IsCreated who m spec identity tenants form duration event known owned entered
        denied requestable (fresh, asked) =
      let (scopes, bound, same) =
        requests_for-requester x site r (load_principal_scopes r.bindings identity) tenants owned in
      let (d, exact, bounds) =
        parse_duration_minutes-IsDuration (form_value "durationMinutes" form) duration
          entered.timed in
      record {
        identity = identity;
        scopes = scopes;
        form = form;
        event = event;
        duration = d;
        known = known;
        bound = bound;
        submitted = entered.parsed;
        denied =
            subst (λ t. IsDenied x site r t (form_value "eventName" form) event) (sym same) denied;
        bounds = bounds;
        requestable = subst (IsRequestable x site r event) exact requestable;
        asked = sym asked ∙ ap (spec_of x site r identity event (form_value "reason" form)) exact;
        fresh = subst (IsNew x site r) asked fresh;
      }

  -- A spec that the handler creates is valid, is for a denied event of one of the requester's tenants
  -- with a current assignment, is within the tenant's budget, and no listed request is its duplicate.
  pub creation-IsCreated :
      (who : Option AuthenticatedIdentity) (m : Mutation) (spec : SandboxAccessRequestSpec)
      → creation x site r who m ≡ passed spec
      → IsCreated who m spec
  unfolding creation
  creation-IsCreated who m spec h =
      let (identity, known, h1) = >>=-eq-passed (request_context x site r who m) _ h in
      let (tenants, owned, h2) =
        >>=-eq-passed (requests_for x site r (load_principal_scopes r.bindings identity)) _ h1 in
      let (input, entered, h3) = >>=-eq-passed (creation_form x site r m) _ h2 in
      let (event, denied, h4) =
        >>=-eq-passed (denied_event x site r tenants (form_value "eventName" input.0)) _ h3 in
      let (u, checked, h5) = >>=-eq-passed (check_event x site r event input.1) _ h4 in
      creation_parts-IsCreated who m spec identity tenants input.0 input.1 event known owned
        (creation_form-IsCreationForm x site r m input entered)
        (denied_event-IsDenied x site r tenants _ event denied)
        (check_event-IsRequestable x site r event input.1 checked)
        (check_spec-IsNew x site r _ spec h5)
