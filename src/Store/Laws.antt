-- ===== src/Store/Laws.antt =====
-- What the store promises its clients: fences that are kept, and creations that can be repeated.
use opensandbox_aks_governan.Base.{
  ℕ, zero, suc, String, Bool, true, false, not, ◌||◌, ◌&&◌, Option, none, some, List, ◌≡◌, refl,
  sym, ap, ◌∙◌, arith, find_key, find_key-put_key, find_key-delete_key, if◌then◌else◌, ◌==◌,
  string_eq, eq_iff, is_empty, already_exists, Result, ok, err, Bool-cases, inl, inr,
}
use opensandbox_aks_governan.Cluster.{
  AssignmentObject, BundleObject, lookup_text, paused_annotation, resume_after_pod_uid_annotation,
}
use opensandbox_aks_governan.Facade.Lifecycle.{Response}
use opensandbox_aks_governan.Facade.Lifecycle.Laws.{BackendLaws}
use opensandbox_aks_governan.Facade.Create.{StoreRequest}
use opensandbox_aks_governan.Store.{
  idempotency_key_annotation, request_hash_annotation, NewAssignment, Server, is_conflict, marked,
  fenced, with_fence, reused, convert, object_of, existing_answer, create, write_found, attempt,
  or_again, update_object_metadata, set_lifecycle_fence, backend_of,
}

-- Documented behaviour of the API server, for the calls of one client: a name is unique, an object is
-- found under its name, and a write that succeeds is seen by the next read.
pub record ServerLaws (k : Server) : Type 0 where
  pub get-name :
      (name : String) (s : k.World) (o : AssignmentObject) → k.get name s ≡ ok o → o.name ≡ name
  pub get-update :
      (o : AssignmentObject) (s : k.World)
      → (k.update o s).1 ≡ ok tt
      → (p : AssignmentObject) × (k.get o.name (k.update o s).0 ≡ ok p)
        × (p.annotations ≡ o.annotations)
        × (p.labels ≡ o.labels)
  pub get-create :
      (v : NewAssignment) (name : String) (s : k.World) (o : AssignmentObject)
      → v.name ≡ some name
      → (k.create v s).1 ≡ ok o
      → (k.get name (k.create v s).0 ≡ ok o)
        × (o.annotations ≡ v.annotations)
        × (o.logical_tenant ≡ v.logical_tenant)
  pub bundle-create :
      (v : NewAssignment) (name : String) (s : k.World)
      → k.bundle name (k.create v s).0 ≡ k.bundle name s
  pub create-existing :
      (v : NewAssignment) (name : String) (s : k.World) (o : AssignmentObject)
      → v.name ≡ some name
      → k.get name s ≡ ok o
      → k.create v s ≡ (s, err already_exists)

-- The fence that the annotations of an assignment hold.
abbrev pub fence_of : Result AssignmentObject → Bool × String
fence_of (err e) = (false, "")
fence_of (ok o) = (
  lookup_text paused_annotation o.annotations == "true",
  lookup_text resume_after_pod_uid_annotation o.annotations,
)

find_key-fenced :
    (uid : String) (values : List (String × String))
    → find_key paused_annotation (fenced uid values) ≡ find_key paused_annotation values
find_key-fenced uid values = ground (
  arith,
  find_key-put_key resume_after_pod_uid_annotation paused_annotation uid values,
  find_key-delete_key resume_after_pod_uid_annotation paused_annotation values,
)

paused_text : Option String → Bool
paused_text none = false
paused_text (some v) = v == "true"

abbrev is_true : String → Bool
is_true s = s == "true"

looked_up :
    (m : List (String × String))
    → (lookup_text paused_annotation m == "true") ≡ paused_text (find_key paused_annotation m)
unfolding paused_text
looked_up m = read (find_key paused_annotation m)
  where
    read : (v : Option String) → is_true (elim v [ none ↦ "" | some t ↦ t ]) ≡ paused_text v
    read none = refl
    read (some t) = refl

marked-paused :
    (paused : Bool) (values : List (String × String))
    → paused_text (find_key paused_annotation (marked paused values)) ≡ paused
unfolding paused_text
marked-paused true values =
    ap paused_text (find_key-put_key paused_annotation paused_annotation "true" values)
marked-paused false values =
    ap paused_text (find_key-delete_key paused_annotation paused_annotation values)

paused-marked :
    (paused : Bool) (uid : String) (values : List (String × String))
    → (lookup_text paused_annotation (fenced uid (marked paused values)) == "true") ≡ paused
paused-marked paused uid values =
    looked_up (fenced uid (marked paused values))
    ∙ ap paused_text (find_key-fenced uid (marked paused values))
    ∙ marked-paused paused values

resume-fenced :
    (uid : String) (values : List (String × String))
    → lookup_text resume_after_pod_uid_annotation (fenced uid values) ≡ uid
resume-fenced uid values = ground (
  arith,
  eq_iff uid "",
  find_key-put_key resume_after_pod_uid_annotation resume_after_pod_uid_annotation uid values,
  find_key-delete_key resume_after_pod_uid_annotation resume_after_pod_uid_annotation values,
)

swapped {ℓ} :
    {A : Type ℓ} (x y : A) (a b c : Bool)
    → (if not a || not b || not c then y else x) ≡ (if a && b && c then x else y)
swapped x y false b c = refl
swapped x y true false c = refl
swapped x y true true false = refl
swapped x y true true true = refl

module _ (k : Server) (namespace : String) (laws : ServerLaws k) where
  -- The object that a successful update of the metadata leaves.
  abbrev Updated : (AssignmentObject → AssignmentObject) → String → k.World → Type 0
  Updated mutate name s =
      (o : AssignmentObject) × (p : AssignmentObject) × (k.get name s ≡ ok p)
      × (p.annotations ≡ (mutate o).annotations)
      × (p.labels ≡ (mutate o).labels)

  attempt-Updated :
      (mutate : AssignmentObject → AssignmentObject) (name : String) (s : k.World)
      → ((o : AssignmentObject) → (mutate o).name ≡ o.name)
      → (attempt k namespace mutate name s).1 ≡ ok tt
      → Updated mutate name (attempt k namespace mutate name s).0
  attempt-Updated mutate name s kept = written (k.get name s) refl
    where
      written :
          (answer : Result AssignmentObject)
          → k.get name s ≡ answer
          → (write_found k namespace mutate s answer).1 ≡ ok tt
          → Updated mutate name (write_found k namespace mutate s answer).0
      written (err e) there h = absurd (cc)
      written (ok o) there h =
          let (p, read, annotations, labels) = laws.get-update (mutate o) s h in
          let named = kept o ∙ laws.get-name name s o there in
          (
            o,
            p,
            ap (λ n. k.get n (k.update (mutate o) s).0) (sym named) ∙ read,
            annotations,
            labels,
          )

  update-Updated :
      (retries : ℕ) (mutate : AssignmentObject → AssignmentObject) (name : String) (s : k.World)
      → ((o : AssignmentObject) → (mutate o).name ≡ o.name)
      → (update_object_metadata k namespace retries mutate name s).1 ≡ ok tt
      → Updated mutate name (update_object_metadata k namespace retries mutate name s).0
  unfolding update_object_metadata
  update-Updated zero mutate name s kept h = attempt-Updated mutate name s kept h
  update-Updated (suc retries) mutate name s kept h =
      once (attempt k namespace mutate name s) (attempt-Updated mutate name s kept)
        (update_object_metadata k namespace retries mutate name
          (attempt k namespace mutate name s).0)
        (update-Updated retries mutate name (attempt k namespace mutate name s).0 kept) h
    where
      once :
          (outcome : k.World × Result (Unit {0}))
          → (outcome.1 ≡ ok tt → Updated mutate name outcome.0)
          → (again : k.World × Result (Unit {0})) → (again.1 ≡ ok tt → Updated mutate name again.0)
          → (or_again k namespace outcome again).1 ≡ ok tt
          → Updated mutate name (or_again k namespace outcome again).0
      once (t, ok u) first again later h = first refl
      once (t, err e) first again later h = elim (Bool-cases (is_conflict e)) [
        | inl clash ↦ rw clash (later (rw clash at h))
        | inr other ↦ absurd (cc (rw other at h))
      ]

  -- The store keeps what the facade relies on: after a write of the fence that succeeded, at whichever
  -- attempt, the annotations of the assignment hold that fence.
  pub backend_of-BackendLaws :
      (retries : ℕ) (post : String → String → k.World → k.World × Result Response)
      → ((name id action : String) (s : k.World)
          → fence_of (k.get name (post id action s).0) ≡ fence_of (k.get name s))
      → BackendLaws (backend_of k namespace retries post) (λ name s. fence_of (k.get name s))
  unfolding set_lifecycle_fence
  backend_of-BackendLaws retries post kept = record {
    fence-set = λ name uid paused s h. set name uid paused s h;
    fence-post = kept;
  }
    where
      set :
          (name uid : String) (paused : Bool) (s : k.World)
          → (set_lifecycle_fence k namespace retries name paused uid s).1 ≡ ok tt
          → fence_of (k.get name (set_lifecycle_fence k namespace retries name paused uid s).0)
            ≡ (paused, uid)
      set name uid paused s h =
          let (o, p, read, annotations, labels) =
            update-Updated retries (with_fence paused uid) name s (λ o. refl) h in
          ap fence_of read
          ∙ ap
              (λ m. (
                lookup_text paused_annotation m == "true",
                lookup_text resume_after_pod_uid_annotation m,
              ))
              annotations
          ∙ ap
              (λ b. (
                b,
                lookup_text resume_after_pod_uid_annotation
                    (fenced uid (marked paused o.annotations)),
              ))
              (paused-marked paused uid o.annotations)
          ∙ ap (λ t. (paused, t)) (resume-fenced uid (marked paused o.annotations))

  created :
      (v : StoreRequest) (s t : k.World) (o : AssignmentObject) (b : BundleObject)
      → is_empty v.name ≡ false
      → k.bundle v.bundle_name s ≡ ok b
      → b.deleting ≡ false
      → k.create (object_of k namespace v) s ≡ (t, ok o)
      → create k namespace v s ≡ (t, ok (convert k namespace o))
  unfolding create
  created v s t o b named there kept made = rw (there, kept, made) refl

  name_of :
      (v : StoreRequest) → is_empty v.name ≡ false → (object_of k namespace v).name ≡ some v.name
  name_of v named = rw named refl

  compared :
      (v w : StoreRequest) (o : AssignmentObject)
      → o.annotations ≡ (object_of k namespace v).annotations
      → o.logical_tenant ≡ v.logical_tenant
      → existing_answer k namespace w (ok o) ≡ (
          if v.idempotency_key == w.idempotency_key
            && v.request_hash == w.request_hash
            && v.logical_tenant == w.logical_tenant
          then ok (record (convert k namespace o) { existing = true })
          else err reused)
  compared v w o annotations tenant =
      ap
        (λ m.
          if not (lookup_text idempotency_key_annotation m == w.idempotency_key)
            || not (lookup_text request_hash_annotation m == w.request_hash)
            || not (o.logical_tenant == w.logical_tenant)
          then err reused
          else ok (record (convert k namespace o) { existing = true }))
        annotations
      ∙ ap
          (λ tenant.
            if not (v.idempotency_key == w.idempotency_key)
              || not (v.request_hash == w.request_hash)
              || not (tenant == w.logical_tenant)
            then err reused
            else ok (record (convert k namespace o) { existing = true }))
          tenant
      ∙ swapped _ _ (v.idempotency_key == w.idempotency_key) (v.request_hash == w.request_hash)
          (v.logical_tenant == w.logical_tenant)

  -- Once the API server has created the object of a request with a name of its own, a creation for a
  -- second request under that name, whose bundle is there and is not being deleted, changes nothing: it gives the existing
  -- assignment, marked so, if key, hash and tenant are those of the first request, and the error for
  -- a reused key otherwise.
  pub create-create :
      (v w : StoreRequest) (s : k.World) (o : AssignmentObject) (b : BundleObject)
      → is_empty v.name ≡ false
      → w.name ≡ v.name
      → (k.create (object_of k namespace v) s).1 ≡ ok o
      → k.bundle w.bundle_name s ≡ ok b
      → b.deleting ≡ false
      → create k namespace w (k.create (object_of k namespace v) s).0 ≡ (
        (k.create (object_of k namespace v) s).0,
        (if v.idempotency_key == w.idempotency_key
              && v.request_hash == w.request_hash
              && v.logical_tenant == w.logical_tenant
            then ok (record (convert k namespace o) { existing = true })
            else err reused),
      )
  unfolding create
  create-create v w s o b named same made there kept =
      let (read, annotations, tenant) =
        laws.get-create (object_of k namespace v) v.name s o (name_of v named) made in
      let t = (k.create (object_of k namespace v) s).0 in
      let wnamed : is_empty w.name ≡ false = ap is_empty same ∙ named in
      let clash : k.create (object_of k namespace w) t ≡ (t, err already_exists) =
        laws.create-existing (object_of k namespace w) w.name t o (name_of w wnamed)
          (ap (λ n. k.get n t) same ∙ read) in
      rw (laws.bundle-create (object_of k namespace v) w.bundle_name s, there, kept, clash, wnamed)
        (ap (λ z. (t, z))
          (ap (λ n. existing_answer k namespace w (k.get n t)) same
            ∙ ap (existing_answer k namespace w) read
            ∙ compared v w o annotations tenant))
