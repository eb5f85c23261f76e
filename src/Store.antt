-- ===== src/Store.antt =====
-- internal/assignment/store/kubernetes/store.go: the store of assignments. The API server and the
-- informer's cache are parameters. `convert` cannot fail here, since the objects have typed fields.
pub mod Laws
use opensandbox_aks_governan.Base.{
  ℕ, zero, suc, String, Bool, true, false, not, ◌||◌, Option, none, some, List, [], ◌∷◌, map,
  put_key, delete_key, contains, if◌then◌else◌, ◌==◌, string_eq, is_empty, Error, not_found,
  already_exists, conflict, canceled, message, wrapped, Result, ok, err, wrap_error,
}
use opensandbox_aks_governan.Cluster.{
  Condition, AssignmentObject, BundleObject, TemplateReference, condition_true, lookup_text,
  ref_name, paused_annotation, resume_after_pod_uid_annotation, sandbox_id_annotation,
}
use opensandbox_aks_governan.Controller.Objects.{sandbox_id_label}
use opensandbox_aks_governan.Facade.Lifecycle.{Assignment, Response, Backend}
use opensandbox_aks_governan.Facade.Create.{StoreRequest}

abbrev pub idempotency_key_annotation : String
idempotency_key_annotation = "aks-sandbox.azure.com/idempotency-key"

abbrev pub request_hash_annotation : String
request_hash_annotation = "aks-sandbox.azure.com/request-hash"

-- The object that `Create` sends; an empty name is left out, and the server makes one.
pub record NewAssignment : Type 0 where
  pub name : Option String
  pub annotations : List (String × String)
  pub template_ref : TemplateReference
  pub logical_tenant : String
  pub bundle_name : String

-- The API server for one namespace, and the cache of its informer.
pub record Server : Type 1 where
  pub World : Type 0
  pub bundle : String → World → Result BundleObject
  pub get : String → World → Result AssignmentObject
  pub create : NewAssignment → World → World × Result AssignmentObject
  pub update : AssignmentObject → World → World × Result (Unit {0})
  pub delete : String → World → World × Result (Unit {0})
  pub cached : World → List AssignmentObject
  pub labelled : String → World → Result (List AssignmentObject)
  pub version : AssignmentObject → String

-- The facade's view of a condition has no generation.
abbrev pub condition_view : Condition → Condition
condition_view c = record c { observed_generation = 0 }

abbrev pub mapped_id : AssignmentObject → String
mapped_id o =
    if is_empty (lookup_text sandbox_id_annotation o.annotations)
    then ref_name o.status.workload_ref
    else lookup_text sandbox_id_annotation o.annotations

-- `sandboxIDsForObject`.
unfoldable pub sandbox_ids : AssignmentObject → List String
sandbox_ids o =
    let mapped = lookup_text sandbox_id_annotation o.annotations in
    let ids = if is_empty mapped then [] else mapped ∷ [] in
    let workload = ref_name o.status.workload_ref in
    let both =
      if contains ids workload
      then ids
      else (if is_empty mapped then workload ∷ [] else mapped ∷ workload ∷ []) in
    if is_empty workload then ids else both

abbrev pub with_id : String → List AssignmentObject → List AssignmentObject
with_id id [] = []
with_id id (o ∷ rest) =
    let found = with_id id rest in if contains (sandbox_ids o) id then o ∷ found else found

abbrev pub is_conflict : Error → Bool
is_conflict not_found = false
is_conflict already_exists = false
is_conflict conflict = true
is_conflict canceled = false
is_conflict (message _) = false
is_conflict (wrapped _ e) = is_conflict e

abbrev pub is_existing : Error → Bool
is_existing not_found = false
is_existing already_exists = true
is_existing conflict = false
is_existing canceled = false
is_existing (message _) = false
is_existing (wrapped _ e) = is_existing e

-- What the two writers of metadata change.
abbrev pub with_sandbox_id : String → AssignmentObject → AssignmentObject
with_sandbox_id id o = record o {
  annotations = put_key sandbox_id_annotation id o.annotations;
  labels = put_key sandbox_id_label id o.labels;
}

abbrev pub marked : Bool → List (String × String) → List (String × String)
marked true values = put_key paused_annotation "true" values
marked false values = delete_key paused_annotation values

abbrev pub fenced : String → List (String × String) → List (String × String)
fenced uid values =
    if is_empty uid
    then delete_key resume_after_pod_uid_annotation values
    else put_key resume_after_pod_uid_annotation uid values

abbrev pub with_fence : Bool → String → AssignmentObject → AssignmentObject
with_fence paused uid o = record o { annotations = fenced uid (marked paused o.annotations) }

abbrev pub reused : Error
reused = message "idempotency key was reused with a different request"

module _ (k : Server) (namespace : String) where
  unfoldable pub convert : AssignmentObject → Assignment
  convert o = record {
    namespace = namespace;
    name = o.name;
    uid = o.uid;
    resource_version = k.version o;
    template_name = o.template_ref.name;
    template_uid = o.template_ref.uid;
    template_revision = o.template_ref.spec_revision;
    logical_tenant = o.logical_tenant;
    bundle_name = o.bundle_name;
    sandbox_id = mapped_id o;
    idempotency_key = lookup_text idempotency_key_annotation o.annotations;
    request_hash = lookup_text request_hash_annotation o.annotations;
    created_at = o.created_at;
    existing = false;
    deleting = o.deleting;
    ready = condition_true "Ready" o.status.conditions;
    workload_ref = o.status.workload_ref;
    pod_ref = o.status.pod_ref;
    conditions = map condition_view o.status.conditions;
  }

  abbrev pub object_of : StoreRequest → NewAssignment
  object_of v = record {
    name = if is_empty v.name then none else some v.name;
    annotations =
        (idempotency_key_annotation, v.idempotency_key)
        ∷ (request_hash_annotation, v.request_hash)
        ∷ [];
    template_ref = record {
      name = v.template_name;
      uid = v.template_uid;
      spec_revision = v.template_revision;
    };
    logical_tenant = v.logical_tenant;
    bundle_name = v.bundle_name;
  }

  abbrev pub other_intent : StoreRequest → AssignmentObject → Bool
  other_intent v o =
      not (lookup_text idempotency_key_annotation o.annotations == v.idempotency_key)
      || not (lookup_text request_hash_annotation o.annotations == v.request_hash)
      || not (o.logical_tenant == v.logical_tenant)

  abbrev pub existing_answer : StoreRequest → Result AssignmentObject → Result Assignment
  existing_answer v (err e) = err e
  existing_answer v (ok o) =
      if other_intent v o then err reused else ok (record (convert o) { existing = true })

  abbrev pub after_create :
      StoreRequest → k.World × Result AssignmentObject → k.World × Result Assignment
  after_create v (s, ok o) = (s, ok (convert o))
  after_create v (s, err e) =
      if is_empty v.name || not (is_existing e)
      then (s, err (wrapped "create sandbox assignment" e))
      else (s, existing_answer v (k.get v.name s))

  abbrev pub after_bundle :
      StoreRequest → k.World → Result BundleObject → k.World × Result Assignment
  after_bundle v s (err e) = (s, err (wrapped "get capability bundle" e))
  after_bundle v s (ok b) =
      if b.deleting
      then (s, err (message "capability bundle is deleting"))
      else after_create v (k.create (object_of v) s)

  unfoldable pub create : StoreRequest → k.World → k.World × Result Assignment
  create v s = after_bundle v s (k.bundle v.bundle_name s)

  abbrev pub converted : Result AssignmentObject → Result Assignment
  converted (err e) = err e
  converted (ok o) = ok (convert o)

  unfoldable pub get : String → k.World → Result Assignment
  get name s = converted (k.get name s)

  abbrev pub ambiguous : String → Result Assignment
  ambiguous id = err (message "multiple assignments map to OpenSandbox ID")

  abbrev pub from_list : String → Result (List AssignmentObject) → Result Assignment
  from_list id (err e) = err e
  from_list id (ok []) = err not_found
  from_list id (ok (o ∷ [])) = ok (convert o)
  from_list id (ok (_ ∷ _ ∷ _)) = ambiguous id

  abbrev pub from_cache : String → k.World → List AssignmentObject → Result Assignment
  from_cache id s [] = from_list id (k.labelled id s)
  from_cache id s (o ∷ []) = ok (convert o)
  from_cache id s (_ ∷ _ ∷ _) = ambiguous id

  unfoldable pub get_by_sandbox_id : String → k.World → Result Assignment
  get_by_sandbox_id id s = from_cache id s (with_id id (k.cached s))

  -- One attempt of `updateObjectMetadata`.
  abbrev pub write_found :
      (AssignmentObject → AssignmentObject)
      → k.World
      → Result AssignmentObject
      → k.World × Result (Unit {0})
  write_found mutate s (err e) = (s, err e)
  write_found mutate s (ok o) = k.update (mutate o) s

  abbrev pub attempt :
      (AssignmentObject → AssignmentObject) → String → k.World → k.World × Result (Unit {0})
  attempt mutate name s = write_found mutate s (k.get name s)

  abbrev pub or_again :
      k.World × Result (Unit {0}) → k.World × Result (Unit {0}) → k.World × Result (Unit {0})
  or_again (s, ok u) again = (s, ok u)
  or_again (s, err e) again = if is_conflict e then again else (s, err e)

  -- `retry.RetryOnConflict`: `retries` further attempts, each after one that conflicts.
  unfoldable pub update_object_metadata :
      ℕ → (AssignmentObject → AssignmentObject) → String → k.World → k.World × Result (Unit {0})
  update_object_metadata zero mutate name s = attempt mutate name s
  update_object_metadata (suc retries) mutate name s =
      let again = update_object_metadata retries mutate name (attempt mutate name s).0 in
      or_again (attempt mutate name s) again

  unfoldable pub set_sandbox_id : ℕ → String → String → k.World → k.World × Result (Unit {0})
  set_sandbox_id retries name id = update_object_metadata retries (with_sandbox_id id) name

  unfoldable pub set_lifecycle_fence :
      ℕ → String → Bool → String → k.World → k.World × Result (Unit {0})
  set_lifecycle_fence retries name paused uid =
      update_object_metadata retries (with_fence paused uid) name

-- The facade's view of the store, next to OpenSandbox behind `post`.
abbrev pub backend_of :
    (k : Server) (namespace : String) (retries : ℕ)
    (post : String → String → k.World → k.World × Result Response)
    → Backend
backend_of k namespace retries post = record {
  World = k.World;
  by_sandbox = get_by_sandbox_id k namespace;
  set_fence = set_lifecycle_fence k namespace retries;
  delete = k.delete;
  post = post;
}
