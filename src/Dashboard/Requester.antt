-- ===== src/Dashboard/Requester.antt =====
-- cmd/aks-sandbox-dashboard/requester_authorization.go: `requesterLifecycleAuthorizer` and what its guarded
-- client lets through. What the API server and the sandbox reader answer is in `Answers`; an error
-- is kept only as far as the code tells errors apart.
pub mod Client
pub mod Clients
pub mod Shown
pub mod Naming
pub mod Gates
pub mod Laws
pub mod Paths
use Prim.Native.String
use opensandbox_aks_governan.Base.{
  ℕ, String, Bool, true, false, not, ◌&&◌, ◌||◌, Option, none, some, List, [], ◌∷◌, if◌then◌else◌,
  ◌==◌, string_eq, is_empty, trim_space, Error, message, Result, ok, err,
}
use opensandbox_aks_governan.Cluster.{
  AssignmentObject, BundleObject, lookup_text, assignment_label, sandbox_id_annotation,
}
use opensandbox_aks_governan.Controller.Objects.{sandbox_id_label}
use opensandbox_aks_governan.Facade.Lifecycle.{Response, reply}
use opensandbox_aks_governan.Facade.Templates.{tenant_of_bundle}
use opensandbox_aks_governan.Dashboard.Principals.{
  AuthenticatedIdentity, PrincipalBinding, PrincipalTenantScopes, known_identity,
  load_principal_scopes, tenant_allowed,
}

-- The three errors that the middleware tells apart; any other is answered like `unavailable`.
pub data Denial : Type 0 where
  unauthorized forbidden unavailable : Denial

pub data Authorized {ℓ} (A : Type ℓ) : Type ℓ where
  denied : Denial → Authorized A
  granted : A → Authorized A

-- A sandbox's tenant or assignment, an error that makes it forbidden, or another error.
pub data Lookup {ℓ} (A : Type ℓ) : Type ℓ where
  found : A → Lookup A
  unbound : Lookup A
  failed : Lookup A

-- `osbclient.Sandbox` and `osbclient.Snapshot`, as far as they are read.
pub record Sandbox : Type 0 where
  pub id : String
  pub metadata : List (String × String)

pub record Snapshot : Type 0 where
  pub id : String
  pub sandbox_id : String

-- An assignment by its name comes with its deletion mark; `template_bundle` is the bundle's name in the
-- configured template.
pub record Answers : Type 0 where
  pub bindings : Result (List (Result PrincipalBinding))
  pub assignments : Result (List (Result AssignmentObject))
  pub assignment : String → Result (Bool × Result AssignmentObject)
  pub bundle : String → Result BundleObject
  pub template_bundle : Result String
  pub sandboxes : Result (List Sandbox)
  pub snapshots : Result (List Snapshot)

abbrev pub is_blank : String → Bool
is_blank s = is_empty (trim_space s)

-- `writeRequesterAuthorizationError`.
unfoldable pub denial_response : Denial → Response
denial_response unauthorized = reply 401 "Unauthorized"
denial_response forbidden = reply 403 "Forbidden"
denial_response unavailable = reply 503 "Requester authorization is unavailable"

-- `errPrincipalBindingMissing` and `errPrincipalBindingAmbiguous`.
abbrev pub is_binding_error : Error → Bool
is_binding_error (message text) =
    text == "principal must have exactly one active binding"
    || text == "authenticated principal has no sandbox tenant binding"
is_binding_error _ = false

abbrev pub requester_scopes : Result PrincipalTenantScopes → Authorized (List String)
requester_scopes (err e) = denied (if is_binding_error e then forbidden else unavailable)
requester_scopes (ok scopes) = elim scopes.requester [
  | [] ↦ denied forbidden
  | t ∷ rest ↦ granted (t ∷ rest)
]

module _ (a : Answers) where
  -- `requesterTenants`.
  unfoldable pub requester_tenants : Option AuthenticatedIdentity → Authorized (List String)
  requester_tenants who = elim (known_identity who) [
    | none ↦ denied unauthorized
    | some identity ↦ requester_scopes (load_principal_scopes a.bindings identity)
  ]

  abbrev pub named_tenant : String → Lookup String
  named_tenant tenant = if is_blank tenant then unbound else found tenant

  -- `bundleLogicalTenant`.
  unfoldable pub bundle_logical_tenant : String → Lookup String
  bundle_logical_tenant name = elim (a.bundle name) [
    | err e ↦ failed
    | ok bundle ↦ named_tenant (tenant_of_bundle bundle)
  ]

  abbrev pub names_sandbox : String → AssignmentObject → Bool
  names_sandbox id o =
      not o.deleting
      && (lookup_text sandbox_id_annotation o.annotations == id
          || lookup_text sandbox_id_label o.labels == id)

  abbrev pub matched_or : Option AssignmentObject → Lookup AssignmentObject
  matched_or none = unbound
  matched_or (some o) = found o

  -- The loop of `assignmentForSandboxID`, with the assignment matched so far.
  unfoldable pub match_sandbox :
      String → Option AssignmentObject → List (Result AssignmentObject) → Lookup AssignmentObject
  match_sandbox id matched [] = matched_or matched
  match_sandbox id matched (err e ∷ rest) = failed
  match_sandbox id none (ok o ∷ rest) =
      let here = match_sandbox id (some o) rest in
      let later = match_sandbox id none rest in if names_sandbox id o then here else later
  match_sandbox id (some matched) (ok o ∷ rest) =
      let later = match_sandbox id (some matched) rest in
      if names_sandbox id o then unbound else later

  abbrev pub assignment_for_sandbox_id : String → Lookup AssignmentObject
  assignment_for_sandbox_id id = elim a.assignments [
    | err e ↦ failed
    | ok list ↦ match_sandbox id none list
  ]

  -- `assignmentByName`.
  abbrev pub live_assignment : Result (Bool × Result AssignmentObject) → Lookup AssignmentObject
  live_assignment (err e) = unbound
  live_assignment (ok (true, converted)) = unbound
  live_assignment (ok (false, err e)) = failed
  live_assignment (ok (false, ok o)) = found o

  -- `assignmentForSandbox`.
  abbrev pub assignment_for_sandbox : Sandbox → Lookup AssignmentObject
  assignment_for_sandbox s =
      if is_blank (lookup_text assignment_label s.metadata)
      then assignment_for_sandbox_id s.id
      else live_assignment (a.assignment (trim_space (lookup_text assignment_label s.metadata)))

  -- The tenant of an assignment: its own, or its bundle's.
  abbrev pub tenant_of : Lookup AssignmentObject → Lookup String
  tenant_of (found o) =
      if is_blank o.logical_tenant
      then bundle_logical_tenant o.bundle_name
      else found (trim_space o.logical_tenant)
  tenant_of unbound = unbound
  tenant_of failed = failed

  -- `sandboxAllowed`, `sandboxAllowedByObject` and `snapshotAllowed`.
  abbrev pub allowed_in : List String → Lookup String → Authorized Bool
  allowed_in tenants (found tenant) = granted (tenant_allowed tenants tenant)
  allowed_in tenants unbound = granted false
  allowed_in tenants failed = denied unavailable

  unfoldable pub sandbox_allowed : List String → String → Authorized Bool
  sandbox_allowed tenants id = allowed_in tenants (tenant_of (assignment_for_sandbox_id id))

  unfoldable pub sandbox_allowed_by_object : List String → Sandbox → Authorized Bool
  sandbox_allowed_by_object tenants s = allowed_in tenants (tenant_of (assignment_for_sandbox s))

  unfoldable pub snapshot_allowed : List String → Snapshot → Authorized Bool
  snapshot_allowed tenants s =
      if is_blank s.sandbox_id then granted false else sandbox_allowed tenants s.sandbox_id

  -- `if err != nil { return err }; if !allowed { return forbidden }`.
  abbrev pub require_allowed : Authorized Bool → Authorized (Unit {0})
  require_allowed (denied d) = denied d
  require_allowed (granted true) = granted tt
  require_allowed (granted false) = denied forbidden

  abbrev pub with_tenants {ℓ} :
      {A : Type ℓ} → Authorized (List String) → (List String → Authorized A) → Authorized A
  with_tenants (denied d) next = denied d
  with_tenants (granted tenants) next = next tenants

  -- `authorizeSandbox`.
  unfoldable pub authorize_sandbox : Option AuthenticatedIdentity → String → Authorized (Unit {0})
  authorize_sandbox who id =
      with_tenants (requester_tenants who) (λ tenants. require_allowed (sandbox_allowed tenants id))

  -- The loops of `authorizeAggregateSandboxes` and `authorizeAggregateSnapshots`.
  abbrev pub all_allowed {ℓ} : {A : Type ℓ} → (A → Authorized Bool) → List A → Authorized (Unit {0})
  all_allowed allowed [] = granted tt
  all_allowed allowed (s ∷ rest) =
      let later = all_allowed allowed rest in
      elim (require_allowed (allowed s)) [ denied d ↦ denied d | granted _ ↦ later ]

  abbrev pub all_listed {ℓ} :
      {A : Type ℓ} → (A → Authorized Bool) → Result (List A) → Authorized (Unit {0})
  all_listed allowed (err e) = denied unavailable
  all_listed allowed (ok list) = all_allowed allowed list

  abbrev pub authorize_aggregate_sandboxes : Option AuthenticatedIdentity → Authorized (Unit {0})
  authorize_aggregate_sandboxes who =
      with_tenants (requester_tenants who)
        (λ tenants. all_listed (sandbox_allowed_by_object tenants) a.sandboxes)

  abbrev pub authorize_aggregate_snapshots : Option AuthenticatedIdentity → Authorized (Unit {0})
  authorize_aggregate_snapshots who =
      with_tenants (requester_tenants who)
        (λ tenants. all_listed (snapshot_allowed tenants) a.snapshots)

  -- `authorizeTemplate`: a template or a bundle without a tenant is an error of neither kind.
  abbrev pub template_tenant : Result String → Lookup String
  template_tenant (err e) = failed
  template_tenant (ok name) = if is_blank name then unbound else bundle_logical_tenant name

  abbrev pub require_tenant : List String → Lookup String → Authorized (Unit {0})
  require_tenant tenants (found tenant) =
      if tenant_allowed tenants tenant then granted tt else denied forbidden
  require_tenant tenants unbound = denied unavailable
  require_tenant tenants failed = denied unavailable

  unfoldable pub authorize_template : Option AuthenticatedIdentity → Authorized (Unit {0})
  authorize_template who =
      with_tenants (requester_tenants who)
        (λ tenants. require_tenant tenants (template_tenant a.template_bundle))

  -- The loops of `filterSandboxes` and `filterSnapshots`.
  abbrev pub keep_if {ℓ} : {A : Type ℓ} → A → Bool → Authorized (List A) → Authorized (List A)
  keep_if s allowed (denied d) = denied d
  keep_if s true (granted rest) = granted (s ∷ rest)
  keep_if s false (granted rest) = granted rest

  unfoldable pub filter_allowed {ℓ} :
      {A : Type ℓ} → (A → Authorized Bool) → List A → Authorized (List A)
  filter_allowed allowed [] = granted []
  filter_allowed allowed (s ∷ rest) =
      let later = filter_allowed allowed rest in
      elim (allowed s) [ denied d ↦ denied d | granted here ↦ keep_if s here later ]

  unfoldable pub filter_sandboxes :
      Option AuthenticatedIdentity → List Sandbox → Authorized (List Sandbox)
  filter_sandboxes who list =
      with_tenants (requester_tenants who)
        (λ tenants. filter_allowed (sandbox_allowed_by_object tenants) list)

  unfoldable pub filter_snapshots :
      Option AuthenticatedIdentity → List Snapshot → Authorized (List Snapshot)
  filter_snapshots who list =
      with_tenants (requester_tenants who)
        (λ tenants. filter_allowed (snapshot_allowed tenants) list)
