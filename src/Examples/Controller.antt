-- ===== src/Examples/Controller.antt =====
-- An assignment reconciled to readiness, and one revoked.
use opensandbox_aks_governan.Base.{
  pos, String, true, false, none, some, List, [], ◌∷◌, ◌≡◌, refl, Error, not_found, ok, err,
  contains, string_eq,
}
use opensandbox_aks_governan.Cluster.{
  Pod, AssignmentObject, AssignmentStatus, BundleObject, expression, assignment_uid_annotation,
  sandbox_id_annotation,
}
use opensandbox_aks_governan.Controller.Objects.{
  Workload, Reads, Writes, Library, Config, projected_sidecar, assignment_finalizer,
  bundle_finalizer,
}
use opensandbox_aks_governan.Controller.Validate.{
  backend_policies, owned_by, assignment_uid, validate_service_account_reference,
  validate_eligible_service_account, validate_isolation, validate_sidecar_identity,
}
use opensandbox_aks_governan.Controller.Conditions.{condition, ready_conditions}
use opensandbox_aks_governan.Controller.Reconcile.{
  set_status, Bound, resolve_template, resolve_bundle, matching_workloads, bind_workload,
  matching_pods, check_account, check_runtime, add_finalizer, bind, steps, desire, ready_status,
  perform,
}
use opensandbox_aks_governan.Controller.Reconcile.Secured.{IsReady, desire-IsReady}
use opensandbox_aks_governan.Controller.Reconcile.Stable.{settled, reconcile_settles}
use opensandbox_aks_governan.Controller.Finalize.{
  revoked, Release, unprotected, finalize, workload_names, delete_workloads, bound_pod_presence,
  release_bundle_if_unused,
}
use opensandbox_aks_governan.Controller.Finalize.Laws.{IsGone, finalize_safe}
use opensandbox_aks_governan.Examples.Authorization.{assigned, pod, account}

abbrev pub protected_bundle : BundleObject
protected_bundle = record {
  name = "bundle-a";
  uid = "bundle-uid";
  deleting = false;
  finalizers = bundle_finalizer ∷ [];
  spec = record { governance = none; egress = some (("source-control", expression "true") ∷ []) };
}

abbrev waiting_assignment : AssignmentObject
waiting_assignment = record assigned {
  finalizers = assignment_finalizer ∷ [];
  annotations = (sandbox_id_annotation, "sandbox-a") ∷ [];
  status = record { conditions = []; resolved = none; workload_ref = none; pod_ref = none };
}

abbrev batch : Workload
batch = record {
  api_version = "sandbox.opensandbox.io/v1alpha1";
  kind = "BatchSandbox";
  namespace = "sandboxes";
  name = "sandbox-a";
  uid = "batch-uid";
  annotations = (assignment_uid_annotation, "uid-a") ∷ [];
  created_at = 5;
  replicas = some (pos 1);
  pool_ref = "";
  allocation = "";
}

abbrev sandbox_pod : Pod
sandbox_pod = record pod {
  annotations = (assignment_uid_annotation, "uid-a") ∷ [];
  owner_references =
      record { controller = some true; kind = "BatchSandbox"; uid = "batch-uid" } ∷ [];
  created_at = 6;
  conditions =
      record { kind = "Ready"; status = "True"; reason = ""; message = ""; observed_generation = 0 }
      ∷ [];
  volumes =
      record {
        name = "assignment-identity";
        projected = some (
            some (record {
              path = "token";
              audience = "aks-sandbox-capability-gateway";
              expiration_seconds = some (pos 600);
            })
            ∷ []);
      }
      ∷ [];
  containers =
      record {
        name = "egress";
        volume_mounts =
            record {
              name = "assignment-identity";
              read_only = true;
              mount_path = "/var/run/aks-sandbox-identity";
              sub_path = "";
              sub_path_expr = "";
            }
            ∷ [];
      }
      ∷ [];
}

abbrev pub library : Library
library = record {
  assignment_converts = λ o. ok tt;
  bundle_converts = λ b. ok tt;
  template_converts = λ t. ok tt;
  bundle_revision = λ s. ok "sha256:0";
  template_revision = λ s. ok "sha256:1";
  allocated_pods = λ s. ok [];
  allow_valid = λ s. ok tt;
}

abbrev pub config : Config
config = record {
  workload_namespace = "sandboxes";
  allowed_runtime_classes = "kata-clh" ∷ [];
  mode = projected_sidecar;
}

abbrev pub reads : Reads
reads = record {
  template = λ name. err not_found;
  bundle = λ name. ok protected_bundle;
  workloads = λ name. ok (batch ∷ []);
  workload = λ namespace name. err not_found;
  pool = λ name. err not_found;
  pod = λ name. err not_found;
  pods = λ name. ok (sandbox_pod ∷ []);
  service_account = λ name. ok account;
  assignments = ok (waiting_assignment ∷ []);
}

abbrev writes : Writes
writes = record {
  assignment = λ o. ok tt;
  status = λ o s. ok tt;
  bundle = λ b. ok tt;
  delete_workload = λ namespace name. ok tt;
}

abbrev pub no_text : Error → String
no_text e = ""

abbrev bound : Bound
bound = record { bundle = protected_bundle; revision = "sha256:0"; required = true }

abbrev ready : AssignmentStatus
ready = ready_status library no_text config reads waiting_assignment bound batch sandbox_pod

ready_run : desire library no_text config reads waiting_assignment ≡ set_status ready
unfolding steps add_finalizer resolve_template resolve_bundle backend_policies bind bind_workload
    matching_workloads matching_pods owned_by assignment_uid check_account
    validate_service_account_reference validate_eligible_service_account validate_isolation
    check_runtime validate_sidecar_identity
ready_run = refl

desire-IsReady_example :
    (b : Bound) × (w : Workload) × (p : Pod) × IsReady library no_text config reads
      waiting_assignment b w p
    × (ready_status library no_text config reads waiting_assignment b w p ≡ ready)
unfolding ready_conditions condition
desire-IsReady_example =
    desire-IsReady library no_text config reads waiting_assignment ready ready_run refl

reconcile_settles_example :
    (desire library no_text config reads
        (settled library no_text config reads waiting_assignment ready)
      ≡ set_status ready)
    × (perform writes (settled library no_text config reads waiting_assignment ready) (
          desire library no_text config reads
            (settled library no_text config reads waiting_assignment ready))
        ≡ ok tt)
reconcile_settles_example =
    reconcile_settles library no_text config reads waiting_assignment ready writes ready_run refl

-- The same assignment in deletion, with its workload and its Pods gone.
abbrev after : Reads
after = record reads { workloads = λ name. ok []; pods = λ name. ok [] }

abbrev freed : AssignmentObject
freed = record waiting_assignment { finalizers = [] }

abbrev released : Release
released = unprotected (record protected_bundle { finalizers = [] })

revoked_run :
    finalize library no_text config after writes waiting_assignment ≡ revoked freed released
unfolding finalize workload_names matching_workloads delete_workloads bound_pod_presence
    release_bundle_if_unused
revoked_run = refl

finalize_safe_example :
    (names : List String) × (pods : List Pod) × IsGone library no_text config after writes
      waiting_assignment names pods
    × (writes.assignment freed ≡ ok tt)
    × (contains freed.finalizers assignment_finalizer ≡ false)
finalize_safe_example =
    finalize_safe library no_text config after writes waiting_assignment freed released revoked_run
