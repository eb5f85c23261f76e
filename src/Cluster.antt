-- ===== src/Cluster.antt =====
-- Kubernetes objects, with the fields that the modelled code reads. A value that
-- `unstructured.NestedString` and its like look up is the empty text where the field is missing, so
-- a field of these records is what the look-up gives. An instant is a number of nanoseconds since
-- Go's zero time.
use opensandbox_aks_governan.Base.{
  ℕ, ℤ, String, Bool, true, ◌&&◌, Option, none, some, List, find_key, any, ◌==◌, string_eq,
}

pub record OwnerReference : Type 0 where
  pub controller : Option Bool
  pub kind : String
  pub uid : String

-- A condition of a Pod or an assignment, its type and its status.
pub record Condition : Type 0 where
  pub kind : String
  pub status : String
  pub reason : String
  pub message : String
  pub observed_generation : ℕ

pub record TokenProjection : Type 0 where
  pub path : String
  pub audience : String
  pub expiration_seconds : Option ℤ

-- A projected volume lists its sources; only service account tokens matter.
pub record Volume : Type 0 where
  pub name : String
  pub projected : Option (List (Option TokenProjection))

pub record VolumeMount : Type 0 where
  pub name : String
  pub read_only : Bool
  pub mount_path : String
  pub sub_path : String
  pub sub_path_expr : String

pub record Container : Type 0 where
  pub name : String
  pub volume_mounts : List VolumeMount

pub record Pod : Type 0 where
  pub namespace : String
  pub name : String
  pub uid : String
  pub deleting : Bool
  pub phase : String
  pub annotations : List (String × String)
  pub owner_references : List OwnerReference
  pub created_at : ℕ
  pub service_account_name : String
  pub automount : Option Bool
  pub runtime_class_name : Option String
  pub volumes : List Volume
  pub containers : List Container
  pub conditions : List Condition
  pub pod_ip : String
  pub pod_ips : List String

pub record ServiceAccount : Type 0 where
  pub namespace : String
  pub name : String
  pub labels : List (String × String)
  pub automount : Option Bool

pub record ObjectReference : Type 0 where
  pub api_version : String
  pub kind : String
  pub namespace : String
  pub name : String
  pub uid : String

pub record ResolvedBundle : Type 0 where
  pub name : String
  pub uid : String
  pub policy_revision : String

pub record TemplateReference : Type 0 where
  pub name : String
  pub uid : String
  pub spec_revision : String

pub record AssignmentStatus : Type 0 where
  pub conditions : List Condition
  pub resolved : Option ResolvedBundle
  pub workload_ref : Option ObjectReference
  pub pod_ref : Option ObjectReference

pub record AssignmentObject : Type 0 where
  pub name : String
  pub uid : String
  pub generation : ℕ
  pub deleting : Bool
  pub finalizers : List String
  pub annotations : List (String × String)
  pub labels : List (String × String)
  pub created_at : ℕ
  pub template_ref : TemplateReference
  pub logical_tenant : String
  pub bundle_name : String
  pub status : AssignmentStatus

-- The `allow` entry of a backend: absent, a text, or a value of another type.
pub data AllowField : Type 0 where
  absent ill_typed : AllowField
  expression : String → AllowField

pub record Governance : Type 0 where
  pub logical_tenant : String
  pub team : String
  pub permission_level : String
  pub display_name : String

-- `egress` lists the backends under `spec.egress.agentgateway`, if there is an egress section.
pub record BundleSpec : Type 0 where
  pub governance : Option Governance
  pub egress : Option (List (String × AllowField))

pub record BundleObject : Type 0 where
  pub name : String
  pub uid : String
  pub deleting : Bool
  pub finalizers : List String
  pub spec : BundleSpec

-- A label or annotation that is missing reads as the empty text.
abbrev pub lookup_text : String → List (String × String) → String
lookup_text k m = elim (find_key k m) [ none ↦ "" | some v ↦ v ]

-- `pointer == nil || *pointer`, for a token automount that has to be switched off.
abbrev pub unset_or_true : Option Bool → Bool
unset_or_true none = true
unset_or_true (some b) = b

abbrev pub condition_true : String → List Condition → Bool
condition_true kind = any (λ c. c.kind == kind && c.status == "True")

abbrev pub ref_uid : Option ObjectReference → String
ref_uid none = ""
ref_uid (some r) = r.uid

abbrev pub ref_name : Option ObjectReference → String
ref_name none = ""
ref_name (some r) = r.name

abbrev pub ref_namespace : Option ObjectReference → String
ref_namespace none = ""
ref_namespace (some r) = r.namespace

abbrev pub resolved_name : Option ResolvedBundle → String
resolved_name none = ""
resolved_name (some r) = r.name

abbrev pub resolved_uid : Option ResolvedBundle → String
resolved_uid none = ""
resolved_uid (some r) = r.uid

abbrev pub resolved_revision : Option ResolvedBundle → String
resolved_revision none = ""
resolved_revision (some r) = r.policy_revision

-- internal/assignment/types.go: labels and annotations.
abbrev pub eligible_label : String
eligible_label = "aks-sandbox.azure.com/eligible"

abbrev pub assignment_label : String
assignment_label = "aks-sandbox.azure.com/assignment"

abbrev pub assignment_uid_annotation : String
assignment_uid_annotation = "aks-sandbox.azure.com/assignment-uid"

abbrev pub open_sandbox_uid_annotation : String
open_sandbox_uid_annotation = "opensandbox.io/extensions.aks-sandbox-assignment-uid"

abbrev pub sandbox_id_annotation : String
sandbox_id_annotation = "aks-sandbox.azure.com/opensandbox-id"

abbrev pub paused_annotation : String
paused_annotation = "aks-sandbox.azure.com/paused"

abbrev pub resume_after_pod_uid_annotation : String
resume_after_pod_uid_annotation = "aks-sandbox.azure.com/resume-after-pod-uid"
