-- ===== src/Authz/Admit.antt =====
-- internal/assignment/authz/checker.go: the part of `Check` between the review of the token and the
-- evaluation (lines 239 to 331). The informer caches are the lists of `View`; an early `return` is a
-- case of `Exit`.
pub mod Laws
use Prim.Native.String
use opensandbox_aks_governan.Base.{
  ℕ, suc, String, Bool, true, false, not, ◌&&◌, ◌||◌, Option, none, some, List, [], ◌∷◌, ◌+◌, ◌*◌,
  leb, ltb, nat_beq, if◌then◌else◌, ◌==◌, string_eq, is_empty, length, keep, find_key, any, Error,
  message, wrapped, Result, ok, err,
}
use opensandbox_aks_governan.Externals.{Externals}
use opensandbox_aks_governan.Api.{second}
use opensandbox_aks_governan.Cluster.{
  Pod, ServiceAccount, AssignmentObject, BundleObject, BundleSpec, Governance, AllowField, absent,
  ill_typed, expression, lookup_text, unset_or_true, condition_true, ref_uid, resolved_name,
  resolved_uid, resolved_revision, eligible_label, sandbox_id_annotation, paused_annotation,
}
use opensandbox_aks_governan.Authz.Decision.{CheckInput, Decision, empty_decision, denied}
use opensandbox_aks_governan.Authz.Grants.{AccessObject, match_access_grant_objects}
use opensandbox_aks_governan.Authz.Tokens.{ReviewedIdentity, TokenReview, Tokens, review_token}
use opensandbox_aks_governan.Authz.Programs.{Cel, program_key, program_for}

-- The informer caches. `access_requests` is what the index on the assignment's UID gives.
pub record View : Type 0 where
  pub pods : List Pod
  pub service_accounts : List ServiceAccount
  pub assignments : List AssignmentObject
  pub bundles : List BundleObject
  pub access_requests : String → List AccessObject

-- A step of the checks: go on, or return a decision, with an error perhaps.
pub data Exit {ℓ} (A : Type ℓ) : Type ℓ where
  go : A → Exit A
  stop : Decision → Option Error → Exit A

infixl 5 ◌>>=◌
abbrev pub ◌>>=◌ {ℓ κ} : {A : Type ℓ} {B : Type κ} (step : Exit A) (next : A → Exit B) → Exit B
stop d e >>= next = stop d e
go value >>= next = next value

infixl 5 ◌>>◌
abbrev pub ◌>>◌ {κ} : {B : Type κ} (check : Exit (Unit {0})) (rest : Exit B) → Exit B
check >> rest = check >>= (λ _. rest)

-- `if test { return Decision{Reason: reason}, nil }`.
abbrev pub deny_if : Bool → String → Exit (Unit {0})
deny_if true text = stop (denied text) none
deny_if false text = go tt

-- The only object of an index, or a denial.
abbrev pub only {ℓ} : {A : Type ℓ} → List A → String → Exit A
only (a ∷ []) text = go a
only [] text = stop (denied text) none
only (_ ∷ _ ∷ _) text = stop (denied text) none

abbrev pub found_or {ℓ} : {A : Type ℓ} → List A → String → Exit A
found_or (a ∷ _) text = go a
found_or [] text = stop (denied text) none

abbrev pub tenant_of : Option Governance → String
tenant_of none = ""
tenant_of (some g) = g.logical_tenant

abbrev pub team_of : Option Governance → String
team_of none = ""
team_of (some g) = g.team

abbrev pub level_of : Option Governance → String
level_of none = ""
level_of (some g) = g.permission_level

abbrev pub display_of : Option Governance → String
display_of none = ""
display_of (some g) = g.display_name

-- `NestedString(bundle, "spec", "egress", "agentgateway", backend, "allow")`.
abbrev pub allow_field : String → Option (List (String × AllowField)) → AllowField
allow_field backend none = absent
allow_field backend (some table) = elim (find_key backend table) [ none ↦ absent | some f ↦ f ]

-- The indexes on a Pod's UID, on the UID of an assignment's Pod, and the stores by name. An empty
-- UID is not indexed.
unfoldable pub pods_with_uid : View → String → List Pod
pods_with_uid view uid = keep (λ p. p.uid == uid && not (is_empty p.uid)) view.pods

unfoldable pub assignments_of_pod : View → String → List AssignmentObject
assignments_of_pod view uid =
    keep (λ a. ref_uid a.status.pod_ref == uid && not (is_empty (ref_uid a.status.pod_ref)))
      view.assignments

unfoldable pub service_accounts_of : View → Pod → List ServiceAccount
service_accounts_of view pod =
    keep (λ a. a.namespace == pod.namespace && a.name == pod.service_account_name)
      view.service_accounts

unfoldable pub bundles_named : View → String → List BundleObject
bundles_named view name = keep (λ b. b.name == name) view.bundles

-- What the checks before the evaluation establish.
pub record Admitted : Type 0 where
  pub pod : Pod
  pub effective_source : String
  pub assignment : AssignmentObject
  pub bundle : BundleObject
  pub revision : String

-- The Pod is being deleted or is not the one that the identity names.
unfoldable pub differs : String → ReviewedIdentity → Pod → Bool
differs workload_namespace identity pod =
    pod.deleting
    || not (pod.namespace == workload_namespace)
    || not (pod.namespace == identity.namespace)
    || not (pod.name == identity.pod_name)
    || not (pod.uid == identity.pod_uid)
    || not (pod.service_account_name == identity.service_account)

-- The Pod's service account is marked eligible and mounts no token.
abbrev pub admit_accounts : List ServiceAccount → Exit (Unit {0})
admit_accounts [] = stop (denied "sandbox ServiceAccount is unavailable") none
admit_accounts (account ∷ rest) =
    deny_if
      (not (lookup_text eligible_label account.labels == "true") || unset_or_true account.automount)
      "sandbox ServiceAccount is not eligible"

unfoldable pub admit_account : View → Pod → Exit (Unit {0})
admit_account view pod = admit_accounts (service_accounts_of view pod)

module _ (x : Externals) where
  abbrev pub is_address : x.Addr → String → Bool
  is_address source text = elim (x.parse_addr text) [
    | none ↦ false
    | some candidate ↦ x.addr_beq (x.unmap candidate) source
  ]

  unfoldable pub source_matches_pod : x.Addr → Pod → Bool
  source_matches_pod source pod =
      any (is_address source) pod.pod_ips || is_address source pod.pod_ip

  abbrev pub source_matches : Option x.Addr → Pod → Bool
  source_matches none pod = false
  source_matches (some source) pod = source_matches_pod (x.unmap source) pod

  -- The source of the request is the Pod's address, and the Pod mounts no token by itself.
  unfoldable pub admit_source : CheckInput → Pod → Exit String
  admit_source input pod = do
    let source = if input.derive_source_from_identity then pod.pod_ip else input.source_address
    deny_if (not (source_matches (x.parse_addr source) pod))
        "request source does not match token Pod"
    deny_if (unset_or_true pod.automount) "sandbox Pod permits token automount"
    go source

  -- The live Pod of a reviewed identity, with the address that the request is taken to come from.
  unfoldable pub admit_pod : String → View → CheckInput → ReviewedIdentity → Exit (Pod × String)
  admit_pod workload_namespace view input identity = do
    pod ← only (pods_with_uid view identity.pod_uid) "live Pod UID is not unique"
    deny_if (differs workload_namespace identity pod) "token does not match live Pod"
    source ← admit_source input pod
    admit_account view pod
    go (pod, source)

-- The ready assignment of a Pod.
unfoldable pub admit_assignment : View → String → Exit AssignmentObject
admit_assignment view pod_uid = do
  assignment ← only (assignments_of_pod view pod_uid) "ready assignment for Pod UID is not unique"
  deny_if
      (assignment.deleting
        || lookup_text paused_annotation assignment.annotations == "true"
        || not (condition_true "Ready" assignment.status.conditions))
      "assignment is not ready"
  deny_if (not (ref_uid assignment.status.pod_ref == pod_uid)) "assignment Pod UID mismatch"
  go assignment

-- `checkerPolicyRevision` hashes the JSON of the bundle's specification.
module _ (policy_revision : BundleSpec → Result String) where
  abbrev pub revision_of : BundleObject → Exit String
  revision_of bundle = elim (policy_revision bundle.spec) [
    | ok revision ↦ go revision
    | err e ↦ stop empty_decision (some e)
  ]

  -- The bundle that the assignment was resolved to, unchanged.
  unfoldable pub admit_bundle : View → AssignmentObject → Exit (BundleObject × String)
  admit_bundle view assignment = do
    let name = resolved_name assignment.status.resolved
    deny_if (is_empty name || not (assignment.bundle_name == name))
        "assignment bundle reference mismatch"
    bundle ← found_or (bundles_named view name) "capability bundle is unavailable"
    deny_if (bundle.deleting || not (bundle.uid == resolved_uid assignment.status.resolved))
        "capability bundle UID mismatch"
    revision ← revision_of bundle
    deny_if (not (revision == resolved_revision assignment.status.resolved))
        "capability bundle revision mismatch"
    go (bundle, revision)

  unfoldable pub admit :
      (x : Externals) → String → View → CheckInput → ReviewedIdentity → Exit Admitted
  admit x workload_namespace view input identity = do
    found ← admit_pod x workload_namespace view input identity
    assignment ← admit_assignment view identity.pod_uid
    policy ← admit_bundle view assignment
    go (record {
      pod = found.0;
      effective_source = found.1;
      assignment = assignment;
      bundle = policy.0;
      revision = policy.1;
    })

abbrev pub deny_source : String
deny_source = "deny"

-- The decision as it is filled in before the evaluation.
unfoldable pub base_decision : Admitted → ReviewedIdentity → CheckInput → Decision
base_decision a identity input = record {
  allow = false;
  reason = "";
  source = deny_source;
  access_request_name = "";
  assignment_name = a.assignment.name;
  assignment_uid = a.assignment.uid;
  sandbox_id = lookup_text sandbox_id_annotation a.assignment.annotations;
  pod_uid = identity.pod_uid;
  capability_bundle_name = resolved_name a.assignment.status.resolved;
  capability_bundle_revision = resolved_revision a.assignment.status.resolved;
  logical_tenant = tenant_of a.bundle.spec.governance;
  team = team_of a.bundle.spec.governance;
  permission_level = level_of a.bundle.spec.governance;
  boundary_display_name = display_of a.bundle.spec.governance;
  backend = input.backend;
  method = input.method;
  host = input.host;
  path = input.path;
}
