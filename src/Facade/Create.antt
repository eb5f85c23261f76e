-- ===== src/Facade/Create.antt =====
-- internal/assignment/opensandboxapi/handler.go: `create`. What it calls answers through `Answers`; the
-- calls that change something, whether they succeed or not, are listed in `Effect`s, the last first.
-- The mutex and the admission's release, which stand around the creation of the assignment alone,
-- leave no trace here.
pub mod Laws
use Prim.Native.String.{len}
use opensandbox_aks_governan.Base.{
  ℕ, ℤ, String, Bool, true, false, not, ◌&&◌, ◌||◌, Option, none, some, List, [], ◌∷◌, ◌-◌,
  find_key, put_key, leb, ltb, nat_beq, all_chars, trim_space, if◌then◌else◌, ◌==◌, string_eq,
  is_empty, Error, not_found, already_exists, conflict, canceled, message, wrapped, Result, ok, err,
}
use opensandbox_aks_governan.Externals.{is_digit, is_upper, is_lower}
use opensandbox_aks_governan.Cluster.{lookup_text, assignment_label}
use opensandbox_aks_governan.Facade.Lifecycle.{
  Assignment, Response, reply, success, store_error, is_missing, template_extension,
}
use opensandbox_aks_governan.Facade.Templates.{ResolvedTemplate}

-- The SDK's `CreateSandboxRequest`. The parts that the code only clears are texts here.
pub record SdkRequest : Type 0 where
  pub image : Option String
  pub snapshot_id : String
  pub timeout : Option ℤ
  pub resource_limits : List (String × String)
  pub resource_requests : Option (List (String × String))
  pub entrypoint : List String
  pub network_policy : Option String
  pub credential_proxy : Option String
  pub volumes : List String
  pub platform : Option String
  pub env : List (String × String)
  pub metadata : List (String × String)
  pub extensions : List (String × String)

-- `assignment.CreateRequest`, without the handler's namespace and the constant name prefix.
pub record StoreRequest : Type 0 where
  pub name : String
  pub template_name : String
  pub template_uid : String
  pub template_revision : String
  pub logical_tenant : String
  pub bundle_name : String
  pub idempotency_key : String
  pub request_hash : String

-- OpenSandbox's answer: its status, its text, and the ID in it if it is a valid create response.
pub record Upstream : Type 0 where
  pub status : ℕ
  pub body : String
  pub created_id : Option String

pub record Answers : Type 0 where
  pub resolve : String → Result ResolvedTemplate
  pub authorize : Option (String → Result (Unit {0}))
  pub admission : Option (String → SdkRequest → Result (Unit {0}))
  pub hash : SdkRequest → ResolvedTemplate → Result String
  pub operation_name : String → String → String
  pub store_create : StoreRequest → Result Assignment
  pub store_get : String → Result Assignment
  pub store_delete : String → Result (Unit {0})
  pub set_sandbox_id : String → String → Result (Unit {0})
  pub encode : SdkRequest → Result (Unit {0})
  pub upstream : SdkRequest → Result Upstream
  pub encode_created : ResolvedTemplate → Upstream → Result String
  pub encode_replay : ResolvedTemplate → Assignment → Result String

pub data Effect : Type 0 where
  created : StoreRequest → Effect
  forwarded : SdkRequest → Effect
  removed : String → Effect
  recorded : String → String → Effect

pub record Outcome : Type 0 where
  pub response : Response
  pub effects : List Effect

abbrev pub ended : ℕ → String → List Effect → Outcome
ended status text effects = record { response = reply status text; effects = effects }

abbrev pub key_char : ℕ → Bool
key_char c =
    is_lower c
    || is_upper c
    || is_digit c
    || nat_beq c b'-'
    || nat_beq c b'_'
    || nat_beq c b'.'
    || nat_beq c b':'

unfoldable pub valid_idempotency_key : String → Bool
valid_idempotency_key s = leb 8 (len s) && leb (len s) 128 && all_chars key_char s

-- The request with everything but its environment and its metadata replaced by the template's.
unfoldable pub govern : ResolvedTemplate → SdkRequest → SdkRequest
govern t v = record {
  image = some t.image;
  snapshot_id = "";
  timeout = some t.timeout_seconds;
  resource_limits = ("cpu", t.cpu) ∷ ("memory", t.memory) ∷ [];
  resource_requests = none;
  entrypoint = t.entrypoint;
  network_policy = none;
  credential_proxy = none;
  volumes = [];
  platform = none;
  env = v.env;
  metadata = v.metadata;
  extensions = [];
}

abbrev pub uid_extension : String
uid_extension = "opensandbox.extensions.aks-sandbox-assignment-uid"

-- The labels that bind the sandbox to the assignment.
unfoldable pub bind_request : Assignment → ResolvedTemplate → SdkRequest → SdkRequest
bind_request a t v = record v {
  metadata = put_key template_extension t.name (put_key assignment_label a.name v.metadata);
  extensions = put_key uid_extension a.uid v.extensions;
}

abbrev pub is_conflict : Error → Bool
is_conflict not_found = false
is_conflict already_exists = false
is_conflict conflict = false
is_conflict canceled = false
is_conflict (message text) = text == "idempotency key was reused with a different request"
is_conflict (wrapped _ e) = is_conflict e

module _ (a : Answers) where
  abbrev pub allowed : String → Result (Unit {0})
  allowed tenant = elim a.authorize [ none ↦ ok tt | some check ↦ check tenant ]

  abbrev pub admitted : String → SdkRequest → Result (Unit {0})
  admitted bundle v = elim a.admission [ none ↦ ok tt | some admit ↦ admit bundle v ]

  abbrev pub store_request : ResolvedTemplate → String → String → StoreRequest
  store_request t key hash = record {
    name = if is_empty key then "" else a.operation_name t.logical_tenant key;
    template_name = t.name;
    template_uid = t.uid;
    template_revision = t.revision;
    logical_tenant = t.logical_tenant;
    bundle_name = t.bundle_name;
    idempotency_key = key;
    request_hash = hash;
  }

  -- A text that could be encoded, or the error for one that could not.
  abbrev pub encoded : ℕ → String → List Effect → Result String → Outcome
  encoded status failure effects (err _) = ended 500 failure effects
  encoded status failure effects (ok body) = ended status body effects

  -- A sandbox that OpenSandbox has created is recorded with the assignment.
  abbrev pub accept :
      Assignment → ResolvedTemplate → Upstream → List Effect → Option String → Outcome
  accept made t up effects none =
      ended 502 "OpenSandbox returned an invalid create response" effects
  accept made t up effects (some id) = elim (a.set_sandbox_id made.name id) [
    | err _ ↦ ended 500 "record OpenSandbox assignment" (recorded made.name id ∷ effects)
    | ok _ ↦
        encoded up.status "encode OpenSandbox response" (recorded made.name id ∷ effects)
          (a.encode_created t up)
  ]

  abbrev pub answered_by : Assignment → ResolvedTemplate → List Effect → Result Upstream → Outcome
  answered_by made t effects (err _) = ended 502 "OpenSandbox is unavailable" effects
  answered_by made t effects (ok up) =
      let accepted = accept made t up effects up.created_id in
      if success up.status then accepted else ended up.status up.body (removed made.name ∷ effects)

  abbrev pub forward : Assignment → ResolvedTemplate → SdkRequest → List Effect → Outcome
  forward made t v effects = elim (a.encode (bind_request made t v)) [
    | err _ ↦ ended 500 "encode OpenSandbox request" (removed made.name ∷ effects)
    | ok _ ↦
        answered_by made t (forwarded (bind_request made t v) ∷ effects)
          (a.upstream (bind_request made t v))
  ]

  abbrev pub replay : ResolvedTemplate → Assignment → List Effect → Outcome
  replay t made effects =
      if is_empty made.sandbox_id
      then ended 409 "sandbox create operation is still in progress" effects
      else encoded 200 "encode idempotent sandbox response" effects (a.encode_replay t made)

  abbrev pub expired : Assignment → List Effect → Result (Unit {0}) → Outcome
  expired made effects (err e) = record {
    response = store_error e;
    effects = removed made.name ∷ effects;
  }
  expired made effects (ok _) =
      ended 503 "stale sandbox create operation was expired; retry the request"
        (removed made.name ∷ effects)

  abbrev pub latest_answer :
      ResolvedTemplate → Assignment → List Effect → Result Assignment → Outcome
  latest_answer t made effects (err e) = record { response = store_error e; effects = effects }
  latest_answer t made effects (ok latest) =
      let stale = expired made effects (a.store_delete made.name) in
      if is_empty latest.sandbox_id then stale else replay t latest effects

  -- An operation that exists already: its sandbox, or that it is pending, for some time.
  abbrev pub repeated : ℕ → ℕ → ResolvedTemplate → Assignment → List Effect → Outcome
  repeated now ttl t made effects =
      let latest = latest_answer t made effects (a.store_get made.name) in
      if is_empty made.sandbox_id && leb ttl (now - made.created_at)
      then latest
      else replay t made effects

  abbrev pub after_store :
      ℕ → ℕ → ResolvedTemplate → SdkRequest → List Effect → Result Assignment → Outcome
  after_store now ttl t v effects (err e) =
      if is_conflict e
      then ended 409 "Idempotency-Key was reused with different sandbox intent" effects
      else record { response = store_error e; effects = effects }
  after_store now ttl t v effects (ok made) =
      let old = repeated now ttl t made effects in
      let new = forward made t v effects in if made.existing then old else new

  abbrev pub after_admission :
      ℕ → ℕ → ResolvedTemplate → SdkRequest → StoreRequest → Result (Unit {0}) → Outcome
  after_admission now ttl t v wanted (err _) =
      ended 403 "sandbox creation does not satisfy the tenant policy" []
  after_admission now ttl t v wanted (ok _) =
      after_store now ttl t v (created wanted ∷ []) (a.store_create wanted)

  abbrev pub after_hash : ℕ → ℕ → ResolvedTemplate → SdkRequest → String → Result String → Outcome
  after_hash now ttl t v key (err _) = ended 500 "hash OpenSandbox create request" []
  after_hash now ttl t v key (ok hash) =
      after_admission now ttl t v (store_request t key hash) (admitted t.bundle_name v)

  abbrev pub after_allowed :
      Bool → ℕ → ℕ → String → ResolvedTemplate → SdkRequest → Result (Unit {0}) → Outcome
  after_allowed required now ttl key t v (err _) =
      ended 403 "caller is not authorized for the sandbox template" []
  after_allowed required now ttl key t v (ok _) =
      let hashed = after_hash now ttl t (govern t v) key (a.hash (govern t v) t) in
      if required && not (valid_idempotency_key key)
      then ended 400 "a valid Idempotency-Key header is required" []
      else hashed

  abbrev pub after_resolve : Bool → ℕ → ℕ → String → SdkRequest → Result ResolvedTemplate → Outcome
  after_resolve required now ttl key v (err e) =
      if is_missing e
      then ended 404 "sandbox template is unavailable" []
      else ended 403 "sandbox template is unavailable" []
  after_resolve required now ttl key v (ok t) =
      after_allowed required now ttl key t v (allowed t.logical_tenant)

  -- `required`: whether an idempotency key is; `ttl`: how long an operation may be pending; `header`:
  -- the Idempotency-Key.
  unfoldable pub create : Bool → ℕ → ℕ → String → Result SdkRequest → Outcome
  create required now ttl header body = elim body [
    | err _ ↦ ended 400 "invalid OpenSandbox create request" []
    | ok v ↦ elim (is_empty (trim_space (lookup_text template_extension v.extensions))) [
      | true ↦ ended 403 "sandbox template is required" []
      | false ↦
          after_resolve required now ttl (trim_space header) v
            (a.resolve (trim_space (lookup_text template_extension v.extensions)))
    ]
  ]
