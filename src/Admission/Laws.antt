-- ===== src/Admission/Laws.antt =====
-- What an admitted sandbox satisfies.
use opensandbox_aks_governan.Base.{
  ℤ, lt_int, String, true, false, List, ◌≡◌, refl, arith, string_eq, eq_iff, is_empty, Result, ok,
  err,
}
use opensandbox_aks_governan.Api.{SandboxTenantPolicy}
use opensandbox_aks_governan.Cluster.{BundleObject, AssignmentObject, lookup_text}
use opensandbox_aks_governan.Admission.{
  Quantities, Answers, CreateRequest, Outcome, admitted, tenant_of, policy_for_tenant,
  bundle_allowed, lifetime_allowed, active, validate_resource_limit, counted, leased, after_limit,
  limited, under_policy, for_bundle, authorize_create,
}

-- A sandbox within the one policy of its bundle's tenant.
pub record IsWithin (q : Quantities) (a : Answers) (workload name : String) (r : CreateRequest)
    (b : BundleObject) (p : SandboxTenantPolicy) (bundles : List BundleObject)
    (assignments : List AssignmentObject) : Type 0 where
  pub bundle_found : a.bundle ≡ ok b
  pub governed : is_empty (tenant_of b) ≡ false
  pub policy_found : policy_for_tenant a (tenant_of b) ≡ ok p
  pub same_namespace : p.spec.workload_namespace ≡ workload
  pub allowed : bundle_allowed p.spec name ≡ true
  pub timely : lifetime_allowed p.spec r.timeout ≡ true
  pub cpu :
      validate_resource_limit q "cpu" (lookup_text "cpu" r.resource_limits) p.spec.max_cpu ≡ ok tt
  pub memory :
      validate_resource_limit q "memory" (lookup_text "memory" r.resource_limits) p.spec.max_memory
      ≡ ok tt
  pub leased : a.lease ≡ ok tt
  pub bundles_listed : a.bundles ≡ ok bundles
  pub assignments_listed : a.assignments ≡ ok assignments
  pub budget :
      lt_int (active (tenant_of b) bundles assignments) p.spec.max_concurrent_sandboxes ≡ true

module _ (q : Quantities) (a : Answers) (workload name : String) (r : CreateRequest) where
  counted-inv :
      (tenant : String) (limit : ℤ) (one : Result (List BundleObject))
      (two : Result (List AssignmentObject))
      → counted q tenant limit one two ≡ admitted
      → (bundles : List BundleObject) × (assignments : List AssignmentObject) × (one ≡ ok bundles)
        × (two ≡ ok assignments)
        × (lt_int (active tenant bundles assignments) limit ≡ true)
  counted-inv tenant limit (err e) two h = absurd (cc)
  counted-inv tenant limit (ok bundles) (err e) h = absurd (cc)
  counted-inv tenant limit (ok bundles) (ok assignments) h =
      (bundles, assignments, refl, refl, ground (arith))

  after_limit-inv :
      (check : Result (Unit {0})) (rest : Outcome)
      → after_limit q check rest ≡ admitted
      → (check ≡ ok tt) × (rest ≡ admitted)
  after_limit-inv (err e) rest h = absurd (cc)
  after_limit-inv (ok tt) rest h = (refl, h)

  leased-inv :
      (tenant : String) (limit : ℤ) (lease : Result (Unit {0}))
      → leased q a tenant limit lease ≡ admitted
      → (lease ≡ ok tt) × (counted q tenant limit a.bundles a.assignments ≡ admitted)
  leased-inv tenant limit (err e) h = absurd (cc)
  leased-inv tenant limit (ok tt) h = (refl, h)

  under_policy-inv :
      (tenant : String) (answer : Result SandboxTenantPolicy)
      → under_policy q a workload tenant name r answer ≡ admitted
      → (p : SandboxTenantPolicy) × (answer ≡ ok p)
        × (p.spec.workload_namespace ≡ workload)
        × (bundle_allowed p.spec name ≡ true)
        × (lifetime_allowed p.spec r.timeout ≡ true)
        × (limited q a tenant p.spec r ≡ admitted)
  under_policy-inv tenant (err e) h = absurd (cc)
  under_policy-inv tenant (ok p) h = (
    p,
    refl,
    ground (arith, eq_iff p.spec.workload_namespace workload),
    ground (arith),
    ground (arith),
    ground (arith),
  )

  for_bundle-inv :
      (answer : Result BundleObject)
      → for_bundle q a workload name r answer ≡ admitted
      → (b : BundleObject) × (answer ≡ ok b)
        × (is_empty (tenant_of b) ≡ false)
        × (under_policy q a workload (tenant_of b) name r (policy_for_tenant a (tenant_of b))
            ≡ admitted)
  for_bundle-inv (err e) h = absurd (cc)
  for_bundle-inv (ok b) h = (b, refl, ground (arith), ground (arith))

  -- A sandbox is admitted only if its bundle has a logical tenant, that tenant has its one policy for
  -- this workload namespace, the policy allows the bundle, the lifetime and the processor and
  -- memory limits, the tenant's lease was taken, and under the lease the tenant had fewer live
  -- assignments than its budget.
  pub authorize_create_sound :
      authorize_create q a workload name r ≡ admitted
      → (b : BundleObject) × (p : SandboxTenantPolicy) × (bundles : List BundleObject)
        × (assignments : List AssignmentObject) × IsWithin q a workload name r b p bundles
            assignments
  unfolding authorize_create
  authorize_create_sound h =
      let (b, found, governed, h1) = for_bundle-inv a.bundle h in
      let (p, policy, space, allowed, timely, h2) =
        under_policy-inv (tenant_of b) (policy_for_tenant a (tenant_of b)) h1 in
      let (cpu, h3) = after_limit-inv _ _ h2 in
      let (memory, h4) = after_limit-inv _ _ h3 in
      let (lease, h5) = leased-inv (tenant_of b) p.spec.max_concurrent_sandboxes a.lease h4 in
      let (bundles, assignments, one, two, budget) =
        counted-inv (tenant_of b) p.spec.max_concurrent_sandboxes a.bundles a.assignments h5 in
      (
        b,
        p,
        bundles,
        assignments,
        record {
          bundle_found = found;
          governed = governed;
          policy_found = policy;
          same_namespace = space;
          allowed = allowed;
          timely = timely;
          cpu = cpu;
          memory = memory;
          leased = lease;
          bundles_listed = one;
          assignments_listed = two;
          budget = budget;
        },
      )
