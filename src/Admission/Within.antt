-- ===== src/Admission/Within.antt =====
-- internal/assignment/admission/admission.go: the policy, the limits and the count that an admitted
-- sandbox is within, in terms of the objects that were read.
use opensandbox_aks_governan.Base.{
  ℕ, ◌≤◌, ℤ, pos, negsuc, lt_int, String, true, false, not, ◌&&◌, ◌==◌, string_eq, Option, none,
  some, List, [], ◌∷◌, ◌≡◌, ◌⊎◌, inl, inr, refl, arith, is_empty, is_some, contains, any,
  cut_prefix, keep, map, length, Bool-cases, Option-cases, Result-cases, Result, ok, err, Alone,
}
use opensandbox_aks_governan.Api.{SandboxTenantPolicy, SandboxTenantPolicySpec}
use opensandbox_aks_governan.Cluster.{BundleObject, AssignmentObject, lookup_text}
use opensandbox_aks_governan.Admission.{
  Quantities, Answers, CreateRequest, admitted, tenant_of, only_one, matching, listed,
  policy_for_tenant, bundle_allowed, lifetime_allowed, int32, active, validate_resource_limit,
  authorize_create,
}
use opensandbox_aks_governan.Admission.Policies.{IsPolicyOf, matching-Alone}
use opensandbox_aks_governan.Admission.Laws.{authorize_create_sound}

only_one-matching :
    (tenant : String) (found : Result (List SandboxTenantPolicy)) (p : SandboxTenantPolicy)
    → only_one tenant found ≡ ok p
    → found ≡ ok (p ∷ [])
only_one-matching tenant (err e) p h = cc
only_one-matching tenant (ok []) p h = cc
only_one-matching tenant (ok (q ∷ [])) p h = cc
only_one-matching tenant (ok (_ ∷ _ ∷ _)) p h = cc

policy-Alone :
    (a : Answers) (tenant : String) (p : SandboxTenantPolicy)
    → policy_for_tenant a tenant ≡ ok p
    → (list : List (Result SandboxTenantPolicy)) × (a.policies ≡ ok list)
      × Alone (IsPolicyOf tenant) list p
unfolding policy_for_tenant
policy-Alone a tenant p h = from a.policies refl h
  where
    from :
        (answer : Result (List (Result SandboxTenantPolicy)))
        → a.policies ≡ answer
        → listed tenant answer ≡ ok p
        → (list : List (Result SandboxTenantPolicy)) × (a.policies ≡ ok list)
          × Alone (IsPolicyOf tenant) list p
    from (err e) same k = cc
    from (ok list) same k = (
      list,
      same,
      matching-Alone tenant list p (only_one-matching tenant (matching tenant list) p k),
    )

-- A prefix of the list that the name starts with.
abbrev pub HasPrefix : List String → String → Type 0
HasPrefix [] name = ⊥
HasPrefix (prefix ∷ rest) name =
    ((tail : String) × (cut_prefix prefix name ≡ some tail)) ⊎ HasPrefix rest name

any-HasPrefix :
    (prefixes : List String) (name : String)
    → any (λ prefix. is_some (cut_prefix prefix name)) prefixes ≡ true
    → HasPrefix prefixes name
any-HasPrefix [] name h = absurd (cc)
any-HasPrefix (prefix ∷ rest) name h = elim (Option-cases (cut_prefix prefix name)) [
  | inr (tail, cut) ↦ inl (tail, cut)
  | inl uncut ↦ inr (any-HasPrefix rest name (rw uncut at h))
]

allowed-name :
    (spec : SandboxTenantPolicySpec) (name : String)
    → bundle_allowed spec name ≡ true
    → (contains spec.allowed_capability_bundles name ≡ true)
      ⊎ HasPrefix spec.allowed_capability_bundle_prefixes name
unfolding bundle_allowed
allowed-name spec name h = elim (Bool-cases (contains spec.allowed_capability_bundles name)) [
  | inl listed ↦ inl listed
  | inr other ↦ inr (any-HasPrefix spec.allowed_capability_bundle_prefixes name (rw other at h))
]

-- A lifetime of at least a minute and at most the policy's.
pub record IsTimely (timeout : Option ℤ) (maximum : ℤ) : Type 0 where
  pub seconds : ℕ
  pub limit : ℕ
  pub given : timeout ≡ some (pos seconds)
  pub at_most : maximum ≡ pos limit
  pub a_minute : 60 ≤ seconds
  pub within : seconds ≤ limit

lifetime-IsTimely :
    (spec : SandboxTenantPolicySpec) (timeout : Option ℤ) (maximum : ℤ)
    → spec.max_lifetime_seconds ≡ maximum
    → lifetime_allowed spec timeout ≡ true
    → IsTimely timeout maximum
lifetime-IsTimely spec none maximum same h = absurd (cc)
lifetime-IsTimely spec (some (negsuc n)) maximum same h = absurd (cc)
lifetime-IsTimely spec (some (pos n)) (negsuc m) same h =
    let k = rw same at h in absurd (ground (arith))
lifetime-IsTimely spec (some (pos n)) (pos m) same h =
    let k = rw same at h in
    record {
      seconds = n;
      limit = m;
      given = refl;
      at_most = refl;
      a_minute = ground (arith);
      within = ground (arith);
    }

-- A limit that is given, is positive, and is not above a positive maximum.
pub record IsLimit (q : Quantities) (requested maximum : String) : Type 0 where
  pub set : is_empty requested ≡ false
  pub wanted : q.Quantity
  pub most : q.Quantity
  pub parsed : q.parse requested ≡ ok wanted
  pub parsed_most : q.parse maximum ≡ ok most
  pub positive : q.positive wanted ≡ true
  pub positive_most : q.positive most ≡ true
  pub within : q.above wanted most ≡ false

validate_resource_limit-IsLimit :
    (q : Quantities) (name requested maximum : String)
    → validate_resource_limit q name requested maximum ≡ ok tt
    → IsLimit q requested maximum
unfolding validate_resource_limit
validate_resource_limit-IsLimit q name requested maximum h =
    elim (Result-cases (q.parse requested)) [
      | inr (e, bad) ↦ absurd (ground (arith))
      | inl (wanted, parsed) ↦ elim (Result-cases (q.parse maximum)) [
        | inr (e, bad) ↦ absurd (ground (arith))
        | inl (most, parsed_most) ↦ record {
          set = ground (arith);
          wanted = wanted;
          most = most;
          parsed = parsed;
          parsed_most = parsed_most;
          positive = ground (arith);
          positive_most = ground (arith);
          within = ground (arith);
        }
      ]
    ]

-- A sandbox within the one policy of its bundle's tenant.
pub record IsAffordable (q : Quantities) (a : Answers) (workload name : String) (r : CreateRequest)
    (b : BundleObject) (p : SandboxTenantPolicy) : Type 0 where
  pub bundle_found : a.bundle ≡ ok b
  pub governed : is_empty (tenant_of b) ≡ false
  pub policies : List (Result SandboxTenantPolicy)
  pub policies_listed : a.policies ≡ ok policies
  pub the_policy : Alone (IsPolicyOf (tenant_of b)) policies p
  pub same_namespace : p.spec.workload_namespace ≡ workload
  pub allowed :
      (contains p.spec.allowed_capability_bundles name ≡ true)
      ⊎ HasPrefix p.spec.allowed_capability_bundle_prefixes name
  pub timely : IsTimely r.timeout p.spec.max_lifetime_seconds
  pub cpu : IsLimit q (lookup_text "cpu" r.resource_limits) p.spec.max_cpu
  pub memory : IsLimit q (lookup_text "memory" r.resource_limits) p.spec.max_memory
  pub leased : a.lease ≡ ok tt
  pub bundles : List BundleObject
  pub bundles_listed : a.bundles ≡ ok bundles
  pub assignments : List AssignmentObject
  pub assignments_listed : a.assignments ≡ ok assignments
  pub budget :
      lt_int
        (int32 (
          length (
            keep
              (λ o.
                not o.deleting
                && contains
                    (map (λ c. c.name) (keep (λ c. tenant_of c == tenant_of b) bundles))
                    o.bundle_name)
              assignments)))
        p.spec.max_concurrent_sandboxes
      ≡ true

-- A sandbox is admitted only if its bundle has a logical tenant, exactly one of the listed policies is
-- enabled, is for that tenant and is not being deleted, and this policy is for the workload
-- namespace, allows the bundle by its name or a prefix of it, and allows the lifetime, of at least 60
-- seconds, and the processor and memory limits, which are positive; the tenant's lease was taken; and
-- of the assignments that were then listed, fewer than the budget are not being deleted and name a
-- bundle of the tenant.
pub authorize_create-IsAffordable :
    (q : Quantities) (a : Answers) (workload name : String) (r : CreateRequest)
    → authorize_create q a workload name r ≡ admitted
    → (b : BundleObject) × (p : SandboxTenantPolicy) × IsAffordable q a workload name r b p
unfolding active
authorize_create-IsAffordable q a workload name r h =
    let (b, p, bundles, assignments, w) = authorize_create_sound q a workload name r h in
    let (policies, policies_listed, alone) = policy-Alone a (tenant_of b) p w.policy_found in
    (
      b,
      p,
      record {
        bundle_found = w.bundle_found;
        governed = w.governed;
        policies = policies;
        policies_listed = policies_listed;
        the_policy = alone;
        same_namespace = w.same_namespace;
        allowed = allowed-name p.spec name w.allowed;
        timely = lifetime-IsTimely p.spec r.timeout p.spec.max_lifetime_seconds refl w.timely;
        cpu = validate_resource_limit-IsLimit q "cpu" _ p.spec.max_cpu w.cpu;
        memory = validate_resource_limit-IsLimit q "memory" _ p.spec.max_memory w.memory;
        leased = w.leased;
        bundles = bundles;
        bundles_listed = w.bundles_listed;
        assignments = assignments;
        assignments_listed = w.assignments_listed;
        budget = w.budget;
      },
    )
