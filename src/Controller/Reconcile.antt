-- ===== src/Controller/Reconcile.antt =====
-- internal/assignment/controller/controller.go: `reconcile` for an assignment that is not being
-- deleted. It ends in one write or one error, which is an `Action`; each of its steps goes on or stops
-- with one.
pub mod Laws
pub mod Stable
pub mod Secured
pub mod Pods
use opensandbox_aks_governan.Base.{
  ℕ, ℤ, pos, negsuc, nat_eq, String, Bool, true, false, not, ◌&&◌, ◌||◌, Option, none, some, List,
  [], ◌∷◌, ◌++◌, keep, contains, put_key, join_text, ltb, if◌then◌else◌, ◌==◌, string_eq, is_empty,
  Error, not_found, already_exists, conflict, canceled, message, wrapped, Result, ok, err,
}
use opensandbox_aks_governan.Cluster.{
  Pod, ServiceAccount, AssignmentObject, AssignmentStatus, BundleObject, BundleSpec, Governance,
  ObjectReference, ResolvedBundle, TemplateReference, Condition, OwnerReference, lookup_text,
  paused_annotation, sandbox_id_annotation, resume_after_pod_uid_annotation,
}
use opensandbox_aks_governan.Controller.Objects.{
  TemplateSpec, TemplateObject, Workload, Pool, Reads, Writes, Library, Config, Mode,
  assignment_finalizer, bundle_finalizer, sandbox_id_label,
}
use opensandbox_aks_governan.Controller.Validate.{
  validate_bundle_policy, owned_by, assignment_uid, runtime_class_name,
  validate_service_account_reference, validate_eligible_service_account, validate_isolation,
  validate_mode, pod_ready,
}
use opensandbox_aks_governan.Controller.Conditions.{
  progress_conditions, ready_conditions, status_equivalent,
}

pub data Action : Type 0 where
  update_assignment : AssignmentObject → Action
  update_bundle : BundleObject → Action
  set_status : AssignmentStatus → Action
  failed : Error → Action

pub data Step {ℓ} (A : Type ℓ) : Type ℓ where
  go : A → Step A
  stop : Action → Step A

infixl 5 ◌>>=◌
abbrev pub ◌>>=◌ {ℓ κ} : {A : Type ℓ} {B : Type κ} (step : Step A) (next : A → Step B) → Step B
stop action >>= next = stop action
go value >>= next = next value

infixl 5 ◌>>◌
abbrev pub ◌>>◌ {κ} : {B : Type κ} (step : Step (Unit {0})) (rest : Step B) → Step B
step >> rest = step >>= (λ _. rest)

abbrev pub stop_if : Bool → Action → Step (Unit {0})
stop_if true action = stop action
stop_if false action = go tt

-- `if err != nil { return err }`.
abbrev pub answer {ℓ} : {A : Type ℓ} → Result A → Step A
answer (ok a) = go a
answer (err e) = stop (failed e)

-- `err.Error()`; the text of an API server's status is the library's.
abbrev pub error_text : (Error → String) → Error → String
error_text status not_found = status not_found
error_text status already_exists = status already_exists
error_text status conflict = status conflict
error_text status canceled = status canceled
error_text status (message text) = text
error_text status (wrapped text e) = join_text text (join_text ": " (error_text status e))

-- The status that a step stops with: what was resolved so far, and conditions that say why.
abbrev pub report :
    AssignmentObject
    → Option ResolvedBundle
    → Option ObjectReference
    → Option ObjectReference
    → Bool
    → Bool
    → String
    → String
    → Action
report o resolved workload pod known bound reason text = set_status (record {
  conditions = progress_conditions o.generation known bound false reason text;
  resolved = resolved;
  workload_ref = workload;
  pod_ref = pod;
})

abbrev pub unresolved : AssignmentObject → String → String → Action
unresolved o reason text = report o none none none false false reason text

abbrev pub workload_reference : Workload → ObjectReference
workload_reference w = record {
  api_version = w.api_version;
  kind = w.kind;
  namespace = w.namespace;
  name = w.name;
  uid = w.uid;
}

abbrev pub pod_reference : Pod → ObjectReference
pod_reference p = record {
  api_version = "v1";
  kind = "Pod";
  namespace = p.namespace;
  name = p.name;
  uid = p.uid;
}

abbrev pub template_step {ℓ} : {A : Type ℓ} → AssignmentObject → Result A → Step A
template_step o (ok a) = go a
template_step o (err _) = stop (unresolved o "TemplateNotFound" "sandbox template is unavailable")

abbrev pub same_revision : Result String → String → Bool
same_revision (err _) wanted = false
same_revision (ok revision) wanted = revision == wanted

abbrev pub bundle_step : AssignmentObject → Result BundleObject → Step BundleObject
bundle_step o (ok b) = go b
bundle_step o (err _) = stop (unresolved o "BundleNotFound" "capability bundle is unavailable")

abbrev pub valid_or {ℓ} : {A : Type ℓ} → (Error → Action) → Result A → Step A
valid_or complain (ok a) = go a
valid_or complain (err e) = stop (complain e)

-- What the checks of the bundle establish.
pub record Bound : Type 0 where
  pub bundle : BundleObject
  pub revision : String
  pub required : Bool

abbrev pub resolved_of : Bound → ResolvedBundle
resolved_of b = record { name = b.bundle.name; uid = b.bundle.uid; policy_revision = b.revision }

abbrev pub governed_tenant : Option Governance → Option String
governed_tenant none = none
governed_tenant (some g) = some g.logical_tenant

abbrev pub is_tenant : String → Option String → Bool
is_tenant tenant none = false
is_tenant tenant (some t) = tenant == t

-- The template, the tenant and the bundle's revision do not fit together.
abbrev pub boundary_mismatch : AssignmentObject → BundleSpec → String → Option TemplateSpec → Bool
boundary_mismatch o spec revision none = false
boundary_mismatch o spec revision (some t) =
    not (t.bundle_revision == revision)
    || is_empty o.logical_tenant
    || not (is_tenant o.logical_tenant (governed_tenant spec.governance))

abbrev pub identity_required : BundleSpec → Bool
identity_required spec = elim spec.egress [
  | none ↦ false
  | some table ↦ elim table [ [] ↦ false | _ ∷ _ ↦ true ]
]

module _ (l : Library) (status_text : Error → String) (c : Config) (r : Reads) where
  unfoldable pub resolve_template : AssignmentObject → Step (Option TemplateSpec)
  resolve_template o = elim (is_empty o.template_ref.name) [
    | true ↦ go none
    | false ↦ do
      t ← template_step o (r.template o.template_ref.name)
      stop_if t.deleting (unresolved o "TemplateNotFound" "sandbox template is unavailable")
      stop_if (not (t.uid == o.template_ref.uid))
          (unresolved o "TemplateReplaced" "sandbox template incarnation changed")
      stop_if (not (same_revision (l.template_revision t.spec) o.template_ref.spec_revision))
          (unresolved o "TemplateRevisionMismatch" "sandbox template revision changed")
      answer (l.template_converts t)
      stop_if (not t.spec.enabled || not (t.spec.bundle_name == o.bundle_name)) (
          unresolved o "TemplateInvalid"
            "sandbox template is disabled or selects a different capability bundle")
      go (some t.spec)
  ]

  unfoldable pub resolve_bundle : AssignmentObject → Option TemplateSpec → Step Bound
  resolve_bundle o template = do
    b ← bundle_step o (r.bundle o.bundle_name)
    stop_if b.deleting (unresolved o "BundleNotFound" "capability bundle is unavailable")
    answer (l.bundle_converts b)
    valid_or (λ e. unresolved o "BundleInvalid" (error_text status_text e))
        (validate_bundle_policy l b.spec)
    stop_if (not (contains b.finalizers bundle_finalizer))
        (update_bundle (record b { finalizers = b.finalizers ++ bundle_finalizer ∷ [] }))
    revision ← answer (l.bundle_revision b.spec)
    stop_if (boundary_mismatch o b.spec revision template) (
        unresolved o "TemplateBoundaryMismatch"
          "sandbox template, assignment tenant, and capability revision do not match")
    go (record { bundle = b; revision = revision; required = identity_required b.spec })

  -- A paused assignment keeps its references.
  abbrev pub paused_status : AssignmentObject → Bound → AssignmentStatus
  paused_status o b = record {
    conditions =
        progress_conditions o.generation true
          (elim o.status.pod_ref [ none ↦ false | some _ ↦ true ]) false "Paused"
          "sandbox capability is paused";
    resolved = some (resolved_of b);
    workload_ref = o.status.workload_ref;
    pod_ref = o.status.pod_ref;
  }

  unfoldable pub matching_workloads : AssignmentObject → Result (List Workload)
  matching_workloads o = elim (r.workloads o.name) [
    | err e ↦ err e
    | ok list ↦ ok (keep (λ w. assignment_uid w.annotations == o.uid) list)
  ]

  abbrev pub one_workload : AssignmentObject → Bound → List Workload → Step Workload
  one_workload o b (w ∷ []) = go w
  one_workload o b [] = stop (
      report o (some (resolved_of b)) none none true false "WorkloadPending"
        "waiting for exactly one fresh BatchSandbox")
  one_workload o b (_ ∷ _ ∷ _) = stop (
      report o (some (resolved_of b)) none none true false "MultipleWorkloads"
        "more than one BatchSandbox claims the assignment")

  abbrev pub single : Option ℤ → Bool
  single none = false
  single (some (pos n)) = n == 1
  single (some (negsuc _)) = false

  unfoldable pub bind_workload : AssignmentObject → Bound → Step Workload
  bind_workload o b = do
    list ← answer (matching_workloads o)
    w ← one_workload o b list
    stop_if (is_empty (lookup_text sandbox_id_annotation o.annotations)) (
        update_assignment (record o {
          annotations = put_key sandbox_id_annotation w.name o.annotations;
          labels = put_key sandbox_id_label w.name o.labels;
        }))
    stop_if (not (single w.replicas)) (
        report o (some (resolved_of b)) (some (workload_reference w)) none true false
          "InvalidReplicaCount" "BatchSandbox must request exactly one Pod")
    stop_if (ltb w.created_at o.created_at) (
        report o (some (resolved_of b)) (some (workload_reference w)) none true false
          "StaleWorkload" "BatchSandbox predates assignment")
    go w

  -- The Pod that a pool allocated, of a pool that replaces its Pods.
  abbrev pub pool_pod : Pool → Result Pod → Result (List Pod)
  pool_pod pool (err not_found) = ok []
  pool_pod pool (err already_exists) = err already_exists
  pool_pod pool (err conflict) = err conflict
  pool_pod pool (err canceled) = err canceled
  pool_pod pool (err (message text)) = err (message text)
  pool_pod pool (err (wrapped text e)) = err (wrapped text e)
  pool_pod pool (ok p) =
      if p.deleting || not (owned_by "Pool" pool.uid p.owner_references)
      then err (message "allocated Pod is not owned by the replacement Pool")
      else ok (p ∷ [])

  abbrev pub allocated : Pool → Result (List String) → Result (List Pod)
  allocated pool (err e) = err (wrapped "parse Pool allocation" e)
  allocated pool (ok []) = ok []
  allocated pool (ok (name ∷ [])) = pool_pod pool (r.pod name)
  allocated pool (ok (_ ∷ _ ∷ _)) = err (message "Pool allocation contains several Pods")

  abbrev pub pool_pods : Workload → Result Pool → Result (List Pod)
  pool_pods w (err e) = err e
  pool_pods w (ok pool) =
      let pods = allocated pool (l.allocated_pods w.allocation) in
      if not (pool.recycle_type == "Delete") && not (pool.recycle_type == "Replace")
      then err (message "a pool must use Delete/Replace recycle strategy")
      else if is_empty w.allocation
      then ok []
      else pods

  -- A live Pod with the assignment's UID that the workload controls.
  abbrev pub is_own : AssignmentObject → Workload → Pod → Bool
  is_own o w p =
      assignment_uid p.annotations == o.uid
      && owned_by "BatchSandbox" w.uid p.owner_references
      && not p.deleting

  unfoldable pub matching_pods : AssignmentObject → Workload → Result (List Pod)
  matching_pods o w = elim (is_empty w.pool_ref) [
    | false ↦ pool_pods w (r.pool w.pool_ref)
    | true ↦ elim (r.pods o.name) [ err e ↦ err e | ok list ↦ ok (keep (is_own o w) list) ]
  ]

  abbrev pub one_pod : AssignmentObject → Bound → Workload → List Pod → Step Pod
  one_pod o b w (p ∷ []) = go p
  one_pod o b w [] = stop (
      report o (some (resolved_of b)) (some (workload_reference w)) none true false "PodPending"
        "waiting for exactly one owned Pod")
  one_pod o b w (_ ∷ _ ∷ _) = stop (
      report o (some (resolved_of b)) (some (workload_reference w)) none true false "MultiplePods"
        "more than one live Pod is owned by the BatchSandbox")

  -- A status with the Pod in it; `bound` says whether it counts as bound.
  abbrev pub pod_report :
      AssignmentObject → Bound → Workload → Pod → Bool → String → String → Action
  pod_report o b w p bound reason text =
      report o (some (resolved_of b)) (some (workload_reference w)) (some (pod_reference p)) true
        bound reason text

  abbrev pub account_trouble : AssignmentObject → Bound → Workload → Pod → Error → Action
  account_trouble o b w p e =
      pod_report o b w p true "ServiceAccountNotReady" (error_text status_text e)

  abbrev pub account_missing : AssignmentObject → Bound → Workload → Pod → Error → Action
  account_missing o b w p e =
      pod_report o b w p true "ServiceAccountNotReady" "sandbox ServiceAccount is unavailable"

  unfoldable pub check_account : AssignmentObject → Bound → Workload → Pod → Step (Unit {0})
  check_account o b w p = do
    valid_or (account_trouble o b w p) (validate_service_account_reference p)
    account ← valid_or (account_missing o b w p) (r.service_account p.service_account_name)
    valid_or (account_trouble o b w p) (validate_eligible_service_account account)
    valid_or (account_trouble o b w p) (validate_isolation p)

  abbrev pub fenced : AssignmentObject → Pod → Bool
  fenced o p =
      not (is_empty (lookup_text resume_after_pod_uid_annotation o.annotations))
      && lookup_text resume_after_pod_uid_annotation o.annotations == p.uid

  abbrev pub check_identity : AssignmentObject → Bound → Workload → Pod → Bool → Step (Unit {0})
  check_identity o b w p false = go tt
  check_identity o b w p true =
      valid_or (λ e. pod_report o b w p true "IdentityNotReady" (error_text status_text e))
        (validate_mode c.mode p)

  unfoldable pub check_runtime : AssignmentObject → Bound → Workload → Pod → Step (Unit {0})
  check_runtime o b w p = do
    stop_if (fenced o p)
        (pod_report o b w p false "ResumePending" "waiting for a fresh Pod incarnation")
    stop_if (is_empty w.pool_ref && ltb p.created_at o.created_at)
        (pod_report o b w p false "StalePod" "owned Pod predates assignment")
    stop_if (not (contains c.allowed_runtime_classes (runtime_class_name p))) (
        pod_report o b w p true "RuntimeNotAllowed"
          "bound Pod does not use an approved runtime class")
    stop_if (not (pod_ready p)) (pod_report o b w p true "PodNotReady" "bound Pod is not ready")
    check_identity o b w p b.required

  abbrev pub ready_status : AssignmentObject → Bound → Workload → Pod → AssignmentStatus
  ready_status o b w p = record {
    conditions = ready_conditions o.generation b.required c.mode;
    resolved = some (resolved_of b);
    workload_ref = some (workload_reference w);
    pod_ref = some (pod_reference p);
  }

  abbrev pub is_paused : AssignmentObject → Bool
  is_paused o = lookup_text paused_annotation o.annotations == "true"

  unfoldable pub add_finalizer : AssignmentObject → Step (Unit {0})
  add_finalizer o =
      stop_if (not (contains o.finalizers assignment_finalizer))
        (update_assignment (record o { finalizers = o.finalizers ++ assignment_finalizer ∷ [] }))

  -- The workload and the Pod of an assignment that is not paused.
  unfoldable pub bind : AssignmentObject → Bound → Step AssignmentStatus
  bind o b = do
    w ← bind_workload o b
    pods ← answer (matching_pods o w)
    p ← one_pod o b w pods
    check_account o b w p
    check_runtime o b w p
    go (ready_status o b w p)

  abbrev pub pause_or_bind : Bool → AssignmentObject → Bound → Step AssignmentStatus
  pause_or_bind true o b = go (paused_status o b)
  pause_or_bind false o b = bind o b

  unfoldable pub steps : AssignmentObject → Step AssignmentStatus
  steps o = do
    add_finalizer o
    answer (l.assignment_converts o)
    template ← resolve_template o
    b ← resolve_bundle o template
    pause_or_bind (is_paused o) o b

  abbrev pub action_of : Step AssignmentStatus → Action
  action_of (go status) = set_status status
  action_of (stop action) = action

  -- What `reconcile` wants to write.
  abbrev pub desire : AssignmentObject → Action
  desire o = action_of (steps o)

-- `updateStatus` writes nothing where the status is already the one that is wanted.
abbrev pub perform : Writes → AssignmentObject → Action → Result (Unit {0})
perform w o (update_assignment changed) = w.assignment changed
perform w o (update_bundle changed) = w.bundle changed
perform w o (failed e) = err e
perform w o (set_status status) =
    let written = w.status o status in if status_equivalent o.status status then ok tt else written
