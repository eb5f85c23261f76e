-- ===== src/Facade/Create/Laws.antt =====
-- What a request forwarded to OpenSandbox looks like, and that an operation is forwarded once.
use opensandbox_aks_governan.Base.{
  ℕ, String, Bool, false, none, some, List, [], ◌∷◌, ◌≡◌, refl, subst, ◌∙◌, arith, find_key,
  put_key, find_key-put_key, string_eq, is_empty, trim_space, Result, ok, err, Result-cases,
  Bool-cases, inl, inr,
}
use opensandbox_aks_governan.Cluster.{assignment_label, lookup_text}
use opensandbox_aks_governan.Facade.Lifecycle.{Assignment, template_extension}
use opensandbox_aks_governan.Facade.Templates.{ResolvedTemplate}
use opensandbox_aks_governan.Facade.Create.{
  SdkRequest, StoreRequest, Answers, Effect, created, forwarded, removed, recorded, govern,
  uid_extension, bind_request, allowed, admitted, store_request, forward, repeated, after_store,
  after_hash, create,
}

-- The requests that were forwarded, the last first.
abbrev pub forwarded_of : List Effect → List SdkRequest
forwarded_of [] = []
forwarded_of (forwarded v ∷ rest) = v ∷ forwarded_of rest
forwarded_of (created _ ∷ rest) = forwarded_of rest
forwarded_of (removed _ ∷ rest) = forwarded_of rest
forwarded_of (recorded _ _ ∷ rest) = forwarded_of rest

-- The request that the facade makes out of a template and a caller's request.
pub record IsGoverned (a : Answers) (header : String) (v : SdkRequest) (t : ResolvedTemplate)
    (made : Assignment) (f : SdkRequest) : Type 0 where
  pub resolved : a.resolve (trim_space (lookup_text template_extension v.extensions)) ≡ ok t
  pub caller_allowed : allowed a t.logical_tenant ≡ ok tt
  pub within_budget : admitted a t.bundle_name (govern t v) ≡ ok tt
  pub hash : String
  pub stored : a.store_create (store_request a t (trim_space header) hash) ≡ ok made
  pub new : made.existing ≡ false
  pub image : f.image ≡ some t.image
  pub entrypoint : f.entrypoint ≡ t.entrypoint
  pub timeout : f.timeout ≡ some t.timeout_seconds
  pub limits : f.resource_limits ≡ ("cpu", t.cpu) ∷ ("memory", t.memory) ∷ []
  pub unmounted : f.volumes ≡ []
  pub unnetworked : f.network_policy ≡ none
  pub unproxied : f.credential_proxy ≡ none
  pub from_no_snapshot : f.snapshot_id ≡ ""
  pub without_requests : f.resource_requests ≡ none
  pub without_platform : f.platform ≡ none
  pub same_environment : f.env ≡ v.env
  pub labelled : find_key assignment_label f.metadata ≡ some made.name
  pub templated : find_key template_extension f.metadata ≡ some t.name
  pub bound : f.extensions ≡ (uid_extension, made.uid) ∷ []

module _ (a : Answers) where
  repeated-forwarded :
      (now ttl : ℕ) (t : ResolvedTemplate) (made : Assignment) (wanted : StoreRequest)
      → forwarded_of (repeated a now ttl t made (created wanted ∷ [])).effects ≡ []
  repeated-forwarded now ttl t made wanted = ground (arith)

  forward-forwarded :
      (made : Assignment) (t : ResolvedTemplate) (v f : SdkRequest) (rest : List SdkRequest)
      (wanted : StoreRequest)
      → forwarded_of (forward a made t v (created wanted ∷ [])).effects ≡ f ∷ rest
      → (bind_request made t v ≡ f) × (rest ≡ [])
  forward-forwarded made t v f rest wanted h = (ground (arith), ground (arith))

  -- A request that reached the creation of its assignment.
  stored :
      (now ttl : ℕ) (t : ResolvedTemplate) (v f : SdkRequest) (rest : List SdkRequest)
      (wanted : StoreRequest) (answer : Result Assignment)
      → forwarded_of (after_store a now ttl t v (created wanted ∷ []) answer).effects ≡ f ∷ rest
      → (made : Assignment) × (answer ≡ ok made)
        × (made.existing ≡ false)
        × (bind_request made t v ≡ f)
        × (rest ≡ [])
  unfolding bind_request
  stored now ttl t v f rest wanted (err e) h = absurd (ground (arith))
  stored now ttl t v f rest wanted (ok made) h = elim (Bool-cases made.existing) [
    | inl old ↦ absurd (ground (arith, repeated-forwarded now ttl t made wanted))
    | inr new ↦
        let (same, once) = forward-forwarded made t v f rest wanted (rw new at h) in
        (made, refl, new, same, once)
  ]

  hashed :
      (now ttl : ℕ) (t : ResolvedTemplate) (v f : SdkRequest) (rest : List SdkRequest)
      (key : String) (answer : Result String)
      → forwarded_of (after_hash a now ttl t v key answer).effects ≡ f ∷ rest
      → (made : Assignment) × (hash : String) × (answer ≡ ok hash)
        × (admitted a t.bundle_name v ≡ ok tt)
        × (a.store_create (store_request a t key hash) ≡ ok made)
        × (made.existing ≡ false)
        × (bind_request made t v ≡ f)
        × (rest ≡ [])
  hashed now ttl t v f rest key (err e) h = absurd (cc)
  hashed now ttl t v f rest key (ok hash) h = elim (Result-cases (admitted a t.bundle_name v)) [
    | inr (e, bad) ↦ absurd (cc (rw bad at h))
    | inl (u, good) ↦
        let (made, answered, new, same, once) =
          stored now ttl t v f rest (store_request a t key hash)
            (a.store_create (store_request a t key hash)) (rw good at h) in
        (made, hash, refl, good, answered, new, same, once)
  ]

  shaped :
      (header : String) (v : SdkRequest) (t : ResolvedTemplate) (made : Assignment) (hash : String)
      → a.resolve (trim_space (lookup_text template_extension v.extensions)) ≡ ok t
      → allowed a t.logical_tenant ≡ ok tt
      → admitted a t.bundle_name (govern t v) ≡ ok tt
      → a.store_create (store_request a t (trim_space header) hash) ≡ ok made
      → made.existing ≡ false
      → IsGoverned a header v t made (bind_request made t (govern t v))
  unfolding bind_request govern
  shaped header v t made hash resolved granted budget answered new = record {
    resolved = resolved;
    caller_allowed = granted;
    within_budget = budget;
    hash = hash;
    stored = answered;
    new = new;
    image = refl;
    entrypoint = refl;
    timeout = refl;
    limits = refl;
    unmounted = refl;
    unnetworked = refl;
    unproxied = refl;
    from_no_snapshot = refl;
    without_requests = refl;
    without_platform = refl;
    same_environment = refl;
    labelled =
        find_key-put_key template_extension assignment_label t.name
          (put_key assignment_label made.name v.metadata)
        ∙ find_key-put_key assignment_label assignment_label made.name v.metadata;
    templated =
        find_key-put_key template_extension template_extension t.name
          (put_key assignment_label made.name v.metadata);
    bound = refl;
  }

  -- A create forwards a request to OpenSandbox at most once, and only for a template that was
  -- resolved, for a tenant that the caller may use and under an admission that was given, once a new
  -- assignment has been created for it. The image, the command, the limits and the lifetime of what is
  -- forwarded are the template's; it has no snapshot, no resource requests, no platform, no volumes,
  -- no network policy and no credential proxy; of its extensions there is only the UID of that
  -- assignment, its labels name that assignment and that template, and its environment is the
  -- caller's.
  pub create-IsGoverned :
      (required : Bool) (now ttl : ℕ) (header : String) (v f : SdkRequest) (rest : List SdkRequest)
      → forwarded_of (create a required now ttl header (ok v)).effects ≡ f ∷ rest
      → (t : ResolvedTemplate) × (made : Assignment) × IsGoverned a header v t made f × (rest ≡ [])
  unfolding create
  create-IsGoverned required now ttl header v f rest h =
      elim (Bool-cases (is_empty (trim_space (lookup_text template_extension v.extensions)))) [
        | inl missing ↦ absurd (ground (arith))
        | inr given ↦
            elim (Result-cases
              (a.resolve (trim_space (lookup_text template_extension v.extensions)))) [
                | inr (e, bad) ↦ absurd (ground (arith))
                | inl (t, resolved) ↦ elim (Result-cases (allowed a t.logical_tenant)) [
                  | inr (e, bad) ↦ absurd (ground (arith))
                  | inl (u, granted) ↦
                      let (made, hash, hash_given, budget, answered, new, same, once) =
                        hashed now ttl t (govern t v) f rest (trim_space header)
                          (a.hash (govern t v) t) (ground (arith)) in
                      (
                        t,
                        made,
                        governed t made hash resolved granted budget answered new same,
                        once,
                      )
                ]
              ]
      ]
    where
      governed :
          (t : ResolvedTemplate) (made : Assignment) (hash : String)
          → a.resolve (trim_space (lookup_text template_extension v.extensions)) ≡ ok t
          → allowed a t.logical_tenant ≡ ok tt
          → admitted a t.bundle_name (govern t v) ≡ ok tt
          → a.store_create (store_request a t (trim_space header) hash) ≡ ok made
          → made.existing ≡ false
          → bind_request made t (govern t v) ≡ f
          → IsGoverned a header v t made f
      governed t made hash resolved granted budget answered new same =
          subst (IsGoverned a header v t made) same
            (shaped header v t made hash resolved granted budget answered new)
