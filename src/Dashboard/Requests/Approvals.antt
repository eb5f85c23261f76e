-- ===== src/Dashboard/Requests/Approvals.antt =====
-- cmd/aks-sandbox-dashboard/governance.go: `approveAccessRequest` and `denyAccessRequest`.
use opensandbox_aks_governan.Base.{
  ℕ, ◌+◌, ℤ, pos, String, Option, List, [], ◌∷◌, ◌≡◌, refl, subst, ok,
}
use opensandbox_aks_governan.Api.{SandboxAccessRequestStatus, SandboxAccessRequest}
use opensandbox_aks_governan.Externals.{Externals}
use opensandbox_aks_governan.Governance.Request.{validate_identity}
use opensandbox_aks_governan.Facade.Lifecycle.{reply}
use opensandbox_aks_governan.Dashboard.Handled.{
  passed, attempt, >>=-eq-passed, attempt-eq-passed, passed-injective,
}
use opensandbox_aks_governan.Dashboard.Principals.{AuthenticatedIdentity}
use opensandbox_aks_governan.Dashboard.Forms.{
  Mutation, Form, form_value, parse_duration_minutes, parse_mutation,
}
use opensandbox_aks_governan.Dashboard.Forms.Laws.{IsDuration, parse_duration_minutes-IsDuration}
use opensandbox_aks_governan.Dashboard.Requests.{Site, Reads, approver_of, require_admin}
use opensandbox_aks_governan.Dashboard.Requests.Decisions.{
  approved_status, denied_status, denial, add_duration, decision_form, decidable_request,
  check_approval, sign, approval,
}
use opensandbox_aks_governan.Dashboard.Requests.Laws.{
  Approvable, Decidable, check_approval-Approvable, decidable_request-Decidable,
}

module _ (x : Externals) (site : Site) (r : Reads) (who : Option AuthenticatedIdentity)
    (m : Mutation) where
  pub record Submitted (fields : List String) (identity : AuthenticatedIdentity) (form : Form)
      : Type 0 where
    pub administrator : require_admin x site r who m ≡ passed identity
    pub parsed : parse_mutation x site.equal_fold site.public_origin fields m ≡ passed form

  decision_form-Submitted :
      (fields : List String) (input : AuthenticatedIdentity × Form)
      → decision_form x site r fields who m ≡ passed input
      → Submitted fields input.0 input.1
  unfolding decision_form
  decision_form-Submitted fields input h =
      let (identity, administrator, h1) = >>=-eq-passed (require_admin x site r who m) _ h in
      let (form, parsed, h2) =
        >>=-eq-passed (parse_mutation x site.equal_fold site.public_origin fields m) _ h1 in
      subst (λ z. Submitted fields z.0 z.1) (passed-injective h2)
        (record { administrator = administrator; parsed = parsed })

  sign-passed :
      (identity : AuthenticatedIdentity) (request : SandboxAccessRequest)
      (status : SandboxAccessRequestStatus)
      (out : SandboxAccessRequest × SandboxAccessRequestStatus)
      → sign x site r identity request status ≡ passed out
      → (validate_identity x (approver_of x site r identity) ≡ ok tt) × ((request, status) ≡ out)
  unfolding sign
  sign-passed identity request status out h =
      let (u, valid, h1) =
        >>=-eq-passed
          (attempt (λ e. reply 403 "Authenticated administrator identity is invalid")
            (validate_identity x (approver_of x site r identity)))
          _ h in
      (
        attempt-eq-passed _ (validate_identity x (approver_of x site r identity)) valid,
        passed-injective h1,
      )

  -- What an administrator approved: a request that was pending, with a reason and for a duration.
  pub record IsApproved (name : String) (request : SandboxAccessRequest)
      (status : SandboxAccessRequestStatus) : Type 0 where
    pub identity : AuthenticatedIdentity
    pub form : Form
    pub duration : ℕ
    pub submitted : Submitted ("csrf" ∷ "decisionReason" ∷ "durationMinutes" ∷ []) identity form
    pub bounds : IsDuration duration
    pub decidable : Decidable x site r identity (form_value "decisionReason" form) name request
    pub approvable : Approvable x site r request.spec (pos duration)
    pub approver_valid : validate_identity x (approver_of x site r identity) ≡ ok tt
    pub sent :
        status
        ≡ approved_status x site r r.now
            (r.now + duration)
            (approver_of x site r identity)
            (form_value "decisionReason" form)

  -- The last three steps of an approval.
  Concluded :
      AuthenticatedIdentity
      → Form
      → SandboxAccessRequest
      → ℤ
      → (SandboxAccessRequest × SandboxAccessRequestStatus)
      → Type 0
  Concluded identity form request duration out =
      Approvable x site r request.spec duration
      × (validate_identity x (approver_of x site r identity) ≡ ok tt)
      × ((
        request,
        approved_status x site r r.now (add_duration x site r r.now duration)
            (approver_of x site r identity) (form_value "decisionReason" form),
      )
          ≡ out)

  approval_parts-IsApproved :
      (name : String) (identity : AuthenticatedIdentity) (form : Form)
      (request : SandboxAccessRequest) (duration : ℤ)
      (out : SandboxAccessRequest × SandboxAccessRequestStatus)
      → Submitted ("csrf" ∷ "decisionReason" ∷ "durationMinutes" ∷ []) identity form
      → parse_duration_minutes (form_value "durationMinutes" form) ≡ ok duration
      → Decidable x site r identity (form_value "decisionReason" form) name request
      → Concluded identity form request duration out
      → IsApproved name out.0 out.1
  unfolding Concluded
  approval_parts-IsApproved name identity form request duration out submitted timed decidable
        concluded =
      let (d, same, bounds) =
        parse_duration_minutes-IsDuration (form_value "durationMinutes" form) duration timed in
      let (approvable, approver_valid, sent) =
        subst (λ t. Concluded identity form request t out) same concluded in
      subst (λ z. IsApproved name z.0 z.1) sent
        (record {
          identity = identity;
          form = form;
          duration = d;
          submitted = submitted;
          bounds = bounds;
          decidable = decidable;
          approvable = approvable;
          approver_valid = approver_valid;
          sent = refl;
        })

  -- An approval passes only for an administrator whose tenants include the request's, with a form of
  -- the site's own, a reason and a pending request that is valid, of the current assignment and policy
  -- revision; its duration is from one minute to eight hours, at most the requested one and within the
  -- tenant's budget.
  pub approval-IsApproved :
      (name : String) (out : SandboxAccessRequest × SandboxAccessRequestStatus)
      → approval x site r who m name ≡ passed out
      → IsApproved name out.0 out.1
  unfolding approval Concluded
  approval-IsApproved name out h =
      let (input, entered, h1) =
        >>=-eq-passed
          (decision_form x site r ("csrf" ∷ "decisionReason" ∷ "durationMinutes" ∷ []) who m) _ h in
      let (duration, timed, h2) =
        >>=-eq-passed
          (attempt (λ e. reply 400 (site.error_text e))
            (parse_duration_minutes (form_value "durationMinutes" input.1)))
          _ h1 in
      let (request, decidable, h3) =
        >>=-eq-passed
          (decidable_request x site r input.0 (form_value "decisionReason" input.1) name) _ h2 in
      let (u, approvable, h4) =
        >>=-eq-passed (check_approval x site r request.spec duration) _ h3 in
      let (valid, sent) = sign-passed input.0 request _ out h4 in
      approval_parts-IsApproved name input.0 input.1 request duration out
        (decision_form-Submitted _ input entered)
        (attempt-eq-passed _ (parse_duration_minutes (form_value "durationMinutes" input.1)) timed)
        (decidable_request-Decidable x site r input.0 _ name request decidable)
        (check_approval-Approvable x site r request.spec duration approvable, valid, sent)

  -- What an administrator denied: a request that was pending, with a reason.
  pub record IsDenial (name : String) (request : SandboxAccessRequest)
      (status : SandboxAccessRequestStatus) : Type 0 where
    pub identity : AuthenticatedIdentity
    pub form : Form
    pub submitted : Submitted ("csrf" ∷ "decisionReason" ∷ []) identity form
    pub decidable : Decidable x site r identity (form_value "decisionReason" form) name request
    pub approver_valid : validate_identity x (approver_of x site r identity) ≡ ok tt
    pub sent :
        status
        ≡ denied_status x site r (approver_of x site r identity) (form_value "decisionReason" form)

  pub denial-IsDenial :
      (name : String) (out : SandboxAccessRequest × SandboxAccessRequestStatus)
      → denial x site r who m name ≡ passed out
      → IsDenial name out.0 out.1
  unfolding denial
  denial-IsDenial name out h =
      let (input, entered, h1) =
        >>=-eq-passed (decision_form x site r ("csrf" ∷ "decisionReason" ∷ []) who m) _ h in
      let (request, decidable, h2) =
        >>=-eq-passed
          (decidable_request x site r input.0 (form_value "decisionReason" input.1) name) _ h1 in
      let (valid, sent) = sign-passed input.0 request _ out h2 in
      subst (λ z. IsDenial name z.0 z.1) sent
        (record {
          identity = input.0;
          form = input.1;
          submitted = decision_form-Submitted _ input entered;
          decidable = decidable_request-Decidable x site r input.0 _ name request decidable;
          approver_valid = valid;
          sent = refl;
        })
