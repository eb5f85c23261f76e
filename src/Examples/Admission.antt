-- ===== src/Examples/Admission.antt =====
-- A sandbox admitted under its tenant's policy.
use opensandbox_aks_governan.Base.{ℕ, pos, true, false, none, some, [], ◌∷◌, ◌≡◌, refl, ltb, ok}
use Prim.Native.String.{len}
use opensandbox_aks_governan.Api.{SandboxTenantPolicy}
use opensandbox_aks_governan.Cluster.{BundleObject}
use opensandbox_aks_governan.Admission.{
  Quantities, Answers, CreateRequest, admitted, authorize_create, policy_for_tenant, matching,
  bundle_allowed, active, validate_resource_limit,
}
use opensandbox_aks_governan.Admission.Within.{IsAffordable, authorize_create-IsAffordable}
use opensandbox_aks_governan.Examples.Authorization.{assigned}

-- A quantity is a text with one stroke for each unit.
abbrev strokes : Quantities
strokes = record {
  Quantity = ℕ;
  parse = λ s. ok (len s);
  positive = λ n. ltb 0 n;
  above = λ n m. ltb m n;
}

abbrev governed : BundleObject
governed = record {
  name = "bundle-a";
  uid = "bundle-uid";
  deleting = false;
  finalizers = [];
  spec = record {
    governance = some (record {
      logical_tenant = "finance";
      team = "";
      permission_level = "";
      display_name = "";
    });
    egress = none;
  };
}

abbrev budget : SandboxTenantPolicy
budget = record {
  deleting = false;
  spec = record {
    logical_tenant = "finance";
    workload_namespace = "sandboxes";
    allowed_capability_bundles = [];
    allowed_capability_bundle_prefixes = "bundle-" ∷ [];
    max_concurrent_sandboxes = pos 2;
    max_lifetime_seconds = pos 3600;
    max_access_request_duration_seconds = pos 3600;
    max_cpu = "||||";
    max_memory = "||||";
    enabled = true;
  };
}

abbrev answers : Answers
answers = record {
  bundle = ok governed;
  policies = ok (ok budget ∷ []);
  lease = ok tt;
  bundles = ok (governed ∷ []);
  assignments = ok (assigned ∷ []);
}

abbrev wanted : CreateRequest
wanted = record {
  timeout = some (pos 600);
  resource_limits = ("cpu", "||") ∷ ("memory", "|||") ∷ [];
}

admitted_run : authorize_create strokes answers "sandboxes" "bundle-a" wanted ≡ admitted
unfolding authorize_create policy_for_tenant matching bundle_allowed active validate_resource_limit
admitted_run = refl

authorize_create-IsAffordable_example :
    (b : BundleObject) × (p : SandboxTenantPolicy) × IsAffordable strokes answers "sandboxes"
      "bundle-a" wanted b p
authorize_create-IsAffordable_example =
    authorize_create-IsAffordable strokes answers "sandboxes" "bundle-a" wanted admitted_run
