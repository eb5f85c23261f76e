-- ===== src/Controller/Objects.antt =====
-- What the controller reads and writes: objects of the cluster, the answers of the API server to one
-- reconciliation, and the library calls that it makes on them.
use opensandbox_aks_governan.Base.{ℕ, ℤ, String, Bool, Option, List, Result}
use opensandbox_aks_governan.Cluster.{
  Pod, ServiceAccount, AssignmentObject, AssignmentStatus, BundleObject, BundleSpec,
}

-- api/assignment/v1alpha1/types.go: `SandboxTemplateSpec` with its references and limits.
pub record TemplateSpec : Type 0 where
  pub display_name : String
  pub description : String
  pub image : String
  pub entrypoint : List String
  pub bundle_name : String
  pub bundle_revision : String
  pub cpu : String
  pub memory : String
  pub timeout_seconds : ℤ
  pub enabled : Bool

pub record TemplateObject : Type 0 where
  pub name : String
  pub uid : String
  pub deleting : Bool
  pub spec : TemplateSpec

-- A BatchSandbox; `replicas` is none where the field is missing, and `allocation` is the text of
-- its annotation `sandbox.opensandbox.io/alloc-status`, empty where that is missing.
pub record Workload : Type 0 where
  pub api_version : String
  pub kind : String
  pub namespace : String
  pub name : String
  pub uid : String
  pub annotations : List (String × String)
  pub created_at : ℕ
  pub replicas : Option ℤ
  pub pool_ref : String
  pub allocation : String

pub record Pool : Type 0 where
  pub uid : String
  pub recycle_type : String

-- `Get` by name and `List` by the assignment's label, in the namespaces that the code names.
pub record Reads : Type 0 where
  pub template : String → Result TemplateObject
  pub bundle : String → Result BundleObject
  pub workloads : String → Result (List Workload)
  pub workload : String → String → Result Workload
  pub pool : String → Result Pool
  pub pod : String → Result Pod
  pub pods : String → Result (List Pod)
  pub service_account : String → Result ServiceAccount
  pub assignments : Result (List AssignmentObject)

-- `Update`, `UpdateStatus` and `Delete`.
pub record Writes : Type 0 where
  pub assignment : AssignmentObject → Result (Unit {0})
  pub status : AssignmentObject → AssignmentStatus → Result (Unit {0})
  pub bundle : BundleObject → Result (Unit {0})
  pub delete_workload : String → String → Result (Unit {0})

-- The converter of unstructured objects, the SHA-256 of a spec in `governance.PolicyRevision`, the
-- JSON decoder for an allocation's Pods, and `ValidateAllowExpression` of package authz.
pub record Library : Type 0 where
  pub assignment_converts : AssignmentObject → Result (Unit {0})
  pub bundle_converts : BundleObject → Result (Unit {0})
  pub template_converts : TemplateObject → Result (Unit {0})
  pub bundle_revision : BundleSpec → Result String
  pub template_revision : TemplateSpec → Result String
  pub allocated_pods : String → Result (List String)
  pub allow_valid : String → Result (Unit {0})

pub data Mode : Type 0 where
  projected_sidecar external_mediator : Mode

pub record Config : Type 0 where
  pub workload_namespace : String
  pub allowed_runtime_classes : List String
  pub mode : Mode

abbrev pub assignment_finalizer : String
assignment_finalizer = "aks-sandbox.azure.com/revoke-assignment"

abbrev pub bundle_finalizer : String
bundle_finalizer = "aks-sandbox.azure.com/in-use-protection"

abbrev pub sandbox_id_label : String
sandbox_id_label = "aks-sandbox.azure.com/opensandbox-id"
