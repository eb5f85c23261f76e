-- ===== src/Dashboard/Requests/Facts.antt =====
-- What the guards of cmd/aks-sandbox-dashboard/governance.go find in the objects that they read.
use Prim.Native.String.{len}
use opensandbox_aks_governan.Base.{
  ℕ, ◌≤◌, ◌<◌, ℤ, String, true, false, ◌&&◌, string_eq, eq_iff, some, List, [], ◌∷◌, ◌≡◌, ◌⊎◌, inl,
  inr, refl, arith, is_empty, contains, trim_space, Bool-cases, Result, ok, err, Alone, NoneOf,
  none_here, none_more,
}
use opensandbox_aks_governan.Api.{
  AssignmentReference, SandboxAccessRequestSpec, SandboxAccessRequestStatus, SandboxAccessRequest,
  SandboxEgressEvent, SandboxTenantPolicy, approved_state,
}
use opensandbox_aks_governan.Cluster.{AssignmentObject, resolved_name, resolved_revision}
use opensandbox_aks_governan.Admission.{matching}
use opensandbox_aks_governan.Admission.Policies.{IsPolicyOf, matching-Alone}
use opensandbox_aks_governan.Dashboard.Principals.{
  AuthenticatedIdentity, PrincipalTenantScopes, load_principal_scopes, administers,
}
use opensandbox_aks_governan.Dashboard.Bindings.{IsBound, load_principal_scopes-IsBound}
use opensandbox_aks_governan.Dashboard.Requests.{
  Reads, request_state, pending_state, budget_of, max_access, reason_allowed, is_active,
  same_intent, duplicate_in, event_assignment, request_assignment,
}

-- The budget of the one policy of a tenant.
pub record IsBudget (policies : Result (List (Result SandboxTenantPolicy))) (tenant : String)
    (budget : ℤ) : Type 0 where
  pub list : List (Result SandboxTenantPolicy)
  pub listed : policies ≡ ok list
  pub policy : SandboxTenantPolicy
  pub alone : Alone (IsPolicyOf tenant) list policy
  pub its_budget : budget ≡ policy.spec.max_access_request_duration_seconds

budget_of-one :
    (found : Result (List SandboxTenantPolicy)) (budget : ℤ)
    → budget_of found ≡ ok budget
    → (p : SandboxTenantPolicy) × (found ≡ ok (p ∷ []))
      × (budget ≡ p.spec.max_access_request_duration_seconds)
budget_of-one (err e) budget h = cc
budget_of-one (ok []) budget h = cc
budget_of-one (ok (p ∷ [])) budget h = (p, refl, cc)
budget_of-one (ok (_ ∷ _ ∷ _)) budget h = cc

pub max_access-IsBudget :
    (tenant : String) (r : Reads) (budget : ℤ)
    → max_access tenant r ≡ ok budget
    → IsBudget r.policies tenant budget
max_access-IsBudget tenant r budget h = from r.policies refl h
  where
    from :
        (answer : Result (List (Result SandboxTenantPolicy)))
        → r.policies ≡ answer
        → elim answer [ err e ↦ err e | ok list ↦ budget_of (matching tenant list) ] ≡ ok budget
        → IsBudget r.policies tenant budget
    from (err e) same k = cc
    from (ok list) same k =
        let (p, found, its) = budget_of-one (matching tenant list) budget k in
        record {
          list = list;
          listed = same;
          policy = p;
          alone = matching-Alone tenant list p found;
          its_budget = its;
        }

-- The assignment of a request is there, is not being deleted, and is of the UID and the policy
-- revision that the request was made for.
pub record IsCurrent (answer : Result AssignmentObject) (reference : AssignmentReference)
    (revision : String) : Type 0 where
  pub assignment : AssignmentObject
  pub found : answer ≡ ok assignment
  pub live : assignment.deleting ≡ false
  pub same_uid : assignment.uid ≡ reference.uid
  pub same_revision : resolved_revision assignment.status.resolved ≡ revision

pub request_assignment-IsCurrent :
    (spec : SandboxAccessRequestSpec) (answer : Result AssignmentObject)
    → request_assignment spec answer ≡ ok tt
    → IsCurrent answer spec.assignment_ref spec.base_policy_revision
request_assignment-IsCurrent spec (err e) h = cc
request_assignment-IsCurrent spec (ok a) h = record {
  assignment = a;
  found = refl;
  live = ground (arith);
  same_uid = ground (arith, eq_iff a.uid spec.assignment_ref.uid);
  same_revision =
      ground (arith, eq_iff (resolved_revision a.status.resolved) spec.base_policy_revision);
}

pub event_assignment-IsCurrent :
    (event : SandboxEgressEvent) (answer : Result AssignmentObject)
    → event_assignment event answer ≡ ok tt
    → (c : IsCurrent answer event.assignment_ref event.capability_bundle_revision) × (resolved_name
          c.assignment.status.resolved
        ≡ event.capability_bundle_name)
event_assignment-IsCurrent event (err e) h = cc
event_assignment-IsCurrent event (ok a) h = (
  record {
    assignment = a;
    found = refl;
    live = ground (arith);
    same_uid = ground (arith, eq_iff a.uid event.assignment_ref.uid);
    same_revision =
        ground
          (arith, eq_iff (resolved_revision a.status.resolved) event.capability_bundle_revision);
  },
  ground (arith, eq_iff (resolved_name a.status.resolved) event.capability_bundle_name),
)

pub state_pending :
    (status : SandboxAccessRequestStatus)
    → request_state status ≡ pending_state
    → (is_empty status.state ≡ true) ⊎ (status.state ≡ "Pending")
state_pending status h = elim (Bool-cases (is_empty status.state)) [
  | inl blank ↦ inl blank
  | inr set ↦ inr (rw set at h)
]

pub reason_allowed-bounds :
    (reason : String)
    → reason_allowed reason ≡ true
    → (3 ≤ len (trim_space reason)) × (len reason ≤ 512)
reason_allowed-bounds reason h = (ground (arith), ground (arith))

pub administers-IsBound :
    (r : Reads) (identity : AuthenticatedIdentity) (tenant : String)
    → administers (load_principal_scopes r.bindings identity) tenant ≡ true
    → (scopes : PrincipalTenantScopes) × IsBound r.bindings identity scopes
      × (contains scopes.admin tenant ≡ true)
administers-IsBound r identity tenant h = from (load_principal_scopes r.bindings identity) refl h
  where
    from :
        (answer : Result PrincipalTenantScopes)
        → load_principal_scopes r.bindings identity ≡ answer
        → administers answer tenant ≡ true
        → (scopes : PrincipalTenantScopes) × IsBound r.bindings identity scopes
          × (contains scopes.admin tenant ≡ true)
    from (err e) same k = cc
    from (ok scopes) same k =
        (scopes, load_principal_scopes-IsBound identity r.bindings scopes same, k)

-- A request that is still pending, or approved and not over.
pub data IsOpen (now : ℕ) (status : SandboxAccessRequestStatus) : Type 0 where
  undecided : (is_empty status.state ≡ true) ⊎ (status.state ≡ "Pending") → IsOpen now status
  in_force :
      (expiry : ℕ)
      → status.state ≡ approved_state
      → status.expires_at ≡ some expiry
      → now < expiry
      → IsOpen now status

-- Two specs for the same target of the same assignment under the same policy revision.
pub record IsSameIntent (a b : SandboxAccessRequestSpec) : Type 0 where
  pub name : a.assignment_ref.name ≡ b.assignment_ref.name
  pub uid : a.assignment_ref.uid ≡ b.assignment_ref.uid
  pub revision : a.base_policy_revision ≡ b.base_policy_revision
  pub backend : a.backend ≡ b.backend
  pub method : a.method ≡ b.method
  pub host : a.host ≡ b.host
  pub path : a.path ≡ b.path

-- A request that stands in the way of a spec.
pub record IsInTheWay (now : ℕ) (spec : SandboxAccessRequestSpec) (request : SandboxAccessRequest)
    : Type 0 where
  pub still_open : IsOpen now request.status
  pub same : IsSameIntent request.spec spec

IsOpen-is_active :
    (now : ℕ) (status : SandboxAccessRequestStatus)
    → IsOpen now status
    → is_active now status ≡ true
IsOpen-is_active now status (undecided (inl blank)) = rw blank refl
IsOpen-is_active now status (undecided (inr state)) = rw state refl
IsOpen-is_active now status (in_force expiry state ends before) =
    rw (state, ends) (ground (arith, before))

IsSameIntent-same_intent :
    (a b : SandboxAccessRequestSpec) → IsSameIntent a b → same_intent a b ≡ true
IsSameIntent-same_intent a b s = ground (
  arith,
  eq_iff a.assignment_ref.name b.assignment_ref.name,
  eq_iff a.assignment_ref.uid b.assignment_ref.uid,
  eq_iff a.base_policy_revision b.base_policy_revision,
  eq_iff a.backend b.backend,
  eq_iff a.method b.method,
  eq_iff a.host b.host,
  eq_iff a.path b.path,
  s.name,
  s.uid,
  s.revision,
  s.backend,
  s.method,
  s.host,
  s.path,
)

pub duplicate_in-NoneOf :
    (now : ℕ) (spec : SandboxAccessRequestSpec) (list : List (Result SandboxAccessRequest))
    → duplicate_in now spec list ≡ ok false
    → NoneOf (IsInTheWay now spec) list
unfolding duplicate_in
duplicate_in-NoneOf now spec [] h = none_here
duplicate_in-NoneOf now spec (err e ∷ rest) h = cc
duplicate_in-NoneOf now spec (ok request ∷ rest) h =
    elim (Bool-cases (is_active now request.status && same_intent request.spec spec)) [
      | inl active ↦ absurd (cc (rw active at h))
      | inr other ↦
          none_more
            (λ w.
              let one = IsOpen-is_active now request.status w.still_open in
              let two = IsSameIntent-same_intent request.spec spec w.same in
              ground (arith, one, two, other))
            (duplicate_in-NoneOf now spec rest (rw other at h))
    ]
