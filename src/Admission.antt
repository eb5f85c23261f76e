-- ===== src/Admission.antt =====
-- internal/assignment/admission/admission.go: `AuthorizeCreate` up to the lease, with the policy of a
-- tenant and the limits. What the API server answers is in `Answers`; a resource quantity is a
-- parameter. How the lease is acquired and deleted is not modelled, only whether it was taken. The two
-- errors that quote the tenant's name leave the name out.
pub mod Laws
pub mod Policies
pub mod Within
pub mod Lease
use opensandbox_aks_governan.Base.{
  ℕ, ℤ, pos, negsuc, lt_int, le_int, String, Bool, true, false, not, ◌&&◌, ◌||◌, Option, none, some,
  List, [], ◌∷◌, ◌+◌, ◌-◌, ◌%◌, ◌^◌, ltb, if◌then◌else◌, ◌==◌, string_eq, is_empty, join_text,
  cut_prefix, is_some, contains, any, keep, map, length, Error, message, Result, ok, err,
}
use opensandbox_aks_governan.Api.{SandboxTenantPolicy, SandboxTenantPolicySpec}
use opensandbox_aks_governan.Cluster.{
  BundleObject, BundleSpec, Governance, AssignmentObject, lookup_text,
}

-- `resource.Quantity`: parsing, `Sign() > 0`, and `Cmp(...) > 0`.
pub record Quantities : Type 1 where
  pub Quantity : Type 0
  pub parse : String → Result Quantity
  pub positive : Quantity → Bool
  pub above : Quantity → Quantity → Bool

-- The answers of one call: the bundle, the policies (each converted or not), the lease, the lists.
pub record Answers : Type 0 where
  pub bundle : Result BundleObject
  pub policies : Result (List (Result SandboxTenantPolicy))
  pub lease : Result (Unit {0})
  pub bundles : Result (List BundleObject)
  pub assignments : Result (List AssignmentObject)

pub record CreateRequest : Type 0 where
  pub timeout : Option ℤ
  pub resource_limits : List (String × String)

-- Refused before the lease was taken, or after, when it is released; or admitted with the lease.
pub data Outcome : Type 0 where
  refused released : Error → Outcome
  admitted : Outcome

abbrev pub tenant_of : BundleObject → String
tenant_of b = elim b.spec.governance [ none ↦ "" | some g ↦ g.logical_tenant ]

abbrev pub applies : String → SandboxTenantPolicy → Bool
applies tenant p = p.spec.enabled && p.spec.logical_tenant == tenant && not p.deleting

abbrev pub add_match :
    String
    → SandboxTenantPolicy
    → Result (List SandboxTenantPolicy)
    → Result (List SandboxTenantPolicy)
add_match tenant p (err e) = err e
add_match tenant p (ok rest) = if applies tenant p then ok (p ∷ rest) else ok rest

unfoldable pub matching :
    String → List (Result SandboxTenantPolicy) → Result (List SandboxTenantPolicy)
matching tenant [] = ok []
matching tenant (err e ∷ rest) = err e
matching tenant (ok p ∷ rest) = add_match tenant p (matching tenant rest)

abbrev pub only_one : String → Result (List SandboxTenantPolicy) → Result SandboxTenantPolicy
only_one tenant (err e) = err e
only_one tenant (ok (p ∷ [])) = ok p
only_one tenant (ok []) = err (message "a logical tenant must have exactly one enabled policy")
only_one tenant (ok (_ ∷ _ ∷ _)) =
    err (message "a logical tenant must have exactly one enabled policy")

abbrev pub listed : String → Result (List (Result SandboxTenantPolicy)) → Result SandboxTenantPolicy
listed tenant (err e) = err e
listed tenant (ok list) = only_one tenant (matching tenant list)

unfoldable pub policy_for_tenant : Answers → String → Result SandboxTenantPolicy
policy_for_tenant a tenant = listed tenant a.policies

unfoldable pub bundle_allowed : SandboxTenantPolicySpec → String → Bool
bundle_allowed spec name =
    contains spec.allowed_capability_bundles name
    || any (λ prefix. is_some (cut_prefix prefix name)) spec.allowed_capability_bundle_prefixes

abbrev pub lifetime_allowed : SandboxTenantPolicySpec → Option ℤ → Bool
lifetime_allowed spec none = false
lifetime_allowed spec (some t) =
    le_int (pos 60) t
    && le_int (pos 60) spec.max_lifetime_seconds
    && le_int t spec.max_lifetime_seconds

-- The int32 that a count of items ends at.
abbrev pub int32 : ℕ → ℤ
int32 n = if ltb (n % 2 ^ 32) (2 ^ 31) then pos (n % 2 ^ 32) else negsuc (2 ^ 32 - 1 - n % 2 ^ 32)

abbrev pub bundles_of : String → List BundleObject → List String
bundles_of tenant list = map (λ b. b.name) (keep (λ b. tenant_of b == tenant) list)

unfoldable pub active : String → List BundleObject → List AssignmentObject → ℤ
active tenant bundles assignments = int32 (
    length (
      keep (λ a. not a.deleting && contains (bundles_of tenant bundles) a.bundle_name) assignments))

module _ (q : Quantities) where
  abbrev pub compare_limits : String → q.Quantity → Result q.Quantity → Result (Unit {0})
  compare_limits name requested (err e) =
      err (message (join_text "tenant " (join_text name " budget is invalid")))
  compare_limits name requested (ok maximum) =
      if not (q.positive maximum)
      then err (message (join_text "tenant " (join_text name " budget is invalid")))
      else if not (q.positive requested) || q.above requested maximum
      then err (message (join_text name " limit exceeds the tenant budget"))
      else ok tt

  abbrev pub parsed_limit : String → Result q.Quantity → Result q.Quantity → Result (Unit {0})
  parsed_limit name (err e) maximum = err (message (join_text name " limit is invalid"))
  parsed_limit name (ok requested) maximum = compare_limits name requested maximum

  unfoldable pub validate_resource_limit : String → String → String → Result (Unit {0})
  validate_resource_limit name requested maximum =
      if is_empty requested
      then err (message (join_text name " limit is required"))
      else parsed_limit name (q.parse requested) (q.parse maximum)

  abbrev pub counted :
      String → ℤ → Result (List BundleObject) → Result (List AssignmentObject) → Outcome
  counted tenant limit (err e) _ = released e
  counted tenant limit (ok bundles) (err e) = released e
  counted tenant limit (ok bundles) (ok assignments) =
      if lt_int (active tenant bundles assignments) limit
      then admitted
      else released (message "a logical tenant reached its concurrent sandbox budget")

  abbrev pub leased : Answers → String → ℤ → Result (Unit {0}) → Outcome
  leased a tenant limit (err e) = refused e
  leased a tenant limit (ok _) = counted tenant limit a.bundles a.assignments

  abbrev pub after_limit : Result (Unit {0}) → Outcome → Outcome
  after_limit (err e) rest = refused e
  after_limit (ok _) rest = rest

  abbrev pub limited : Answers → String → SandboxTenantPolicySpec → CreateRequest → Outcome
  limited a tenant spec r =
      after_limit (validate_resource_limit "cpu" (lookup_text "cpu" r.resource_limits) spec.max_cpu)
        (after_limit
          (validate_resource_limit "memory" (lookup_text "memory" r.resource_limits)
            spec.max_memory)
          (leased a tenant spec.max_concurrent_sandboxes a.lease))

  abbrev pub under_policy :
      Answers → String → String → String → CreateRequest → Result SandboxTenantPolicy → Outcome
  under_policy a workload tenant name r (err e) = refused e
  under_policy a workload tenant name r (ok p) =
      let rest = limited a tenant p.spec r in
      if not (p.spec.workload_namespace == workload)
      then refused (message "tenant policy targets a different workload namespace")
      else if not (bundle_allowed p.spec name)
      then refused (message "capability bundle is not allowed by the tenant policy")
      else if not (lifetime_allowed p.spec r.timeout)
      then refused (message "requested lifetime exceeds the tenant policy")
      else rest

  abbrev pub for_bundle : Answers → String → String → CreateRequest → Result BundleObject → Outcome
  for_bundle a workload name r (err e) = refused e
  for_bundle a workload name r (ok b) =
      let rest = under_policy a workload (tenant_of b) name r (policy_for_tenant a (tenant_of b)) in
      if is_empty (tenant_of b)
      then refused (message "capability bundle has no logical tenant")
      else rest

  unfoldable pub authorize_create : Answers → String → String → CreateRequest → Outcome
  authorize_create a workload name r = for_bundle a workload name r a.bundle
