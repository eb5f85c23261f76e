-- ===== src/Controller/Reconcile/Laws.antt =====
-- What a status that says Ready rests on.
use opensandbox_aks_governan.Base.{
  String, Bool, true, false, not, Option, List, [], ◌∷◌, ◌≡◌, refl, sym, ap, ◌∙◌, inl, inr, arith,
  contains, ltb, ◌&&◌, subst, string_eq, is_empty, Error, Result, ok, err, Result-cases,
}
use opensandbox_aks_governan.Cluster.{
  Pod, ServiceAccount, AssignmentObject, AssignmentStatus, condition_true, lookup_text,
  sandbox_id_annotation,
}
use opensandbox_aks_governan.Controller.Objects.{
  TemplateSpec, Workload, Reads, Library, Config, assignment_finalizer, bundle_finalizer,
}
use opensandbox_aks_governan.Controller.Validate.{
  validate_bundle_policy, runtime_class_name, validate_eligible_service_account, validate_isolation,
  validate_mode, pod_ready,
}
use opensandbox_aks_governan.Controller.Conditions.{progress_conditions, condition}
use opensandbox_aks_governan.Controller.Reconcile.{
  Action, update_assignment, update_bundle, set_status, failed, Step, go, stop, ◌>>=◌, answer,
  Bound, boundary_mismatch, identity_required, resolve_template, resolve_bundle, matching_workloads,
  single, bind_workload, matching_pods, one_pod, check_account, fenced, check_runtime, ready_status,
  is_paused, add_finalizer, bind, pause_or_bind, steps, action_of, desire,
}

-- An assignment that its bundle, its one workload and its one Pod make ready.
pub record IsSecured (l : Library) (status_text : Error → String) (c : Config) (r : Reads)
    (o : AssignmentObject) (b : Bound) (w : Workload) (p : Pod) : Type 0 where
  pub guarded : contains o.finalizers assignment_finalizer ≡ true
  pub running : is_paused l status_text c r o ≡ false
  pub template : Option TemplateSpec
  pub chosen : resolve_template l status_text c r o ≡ go template
  pub agreeing : boundary_mismatch o b.bundle.spec b.revision template ≡ false
  pub required : b.required ≡ identity_required b.bundle.spec
  pub bundle_found : r.bundle o.bundle_name ≡ ok b.bundle
  pub bundle_kept : b.bundle.deleting ≡ false
  pub bundle_valid : validate_bundle_policy l b.bundle.spec ≡ ok tt
  pub bundle_protected : contains b.bundle.finalizers bundle_finalizer ≡ true
  pub revised : l.bundle_revision b.bundle.spec ≡ ok b.revision
  pub one_workload : matching_workloads l status_text c r o ≡ ok (w ∷ [])
  pub recorded : is_empty (lookup_text sandbox_id_annotation o.annotations) ≡ false
  pub one_replica : single l status_text c r w.replicas ≡ true
  pub fresh_workload : ltb w.created_at o.created_at ≡ false
  pub one_pod : matching_pods l status_text c r o w ≡ ok (p ∷ [])
  pub account :
      (a : ServiceAccount) × (r.service_account p.service_account_name ≡ ok a)
      × (validate_eligible_service_account a ≡ ok tt)
  pub isolated : validate_isolation p ≡ ok tt
  pub unfenced : fenced l status_text c r o p ≡ false
  pub fresh_pod : (is_empty w.pool_ref && ltb p.created_at o.created_at) ≡ false
  pub runtime : contains c.allowed_runtime_classes (runtime_class_name p) ≡ true
  pub pod_is_ready : pod_ready p ≡ true
  pub identity : b.required ≡ true → validate_mode c.mode p ≡ ok tt

-- An action that writes no status that says Ready.
abbrev unready : Action → Bool
unready (set_status status) = not (condition_true "Ready" status.conditions)
unready (update_assignment _) = true
unready (update_bundle _) = true
unready (failed _) = true

abbrev quiet {ℓ} : {A : Type ℓ} → Step A → Bool
quiet (go _) = true
quiet (stop action) = unready action

quiet->>= {ℓ κ} :
    {A : Type ℓ} {B : Type κ} (step : Step A) (next : A → Step B)
    → quiet step ≡ true
    → ((a : A) → quiet (next a) ≡ true)
    → quiet (step >>= next) ≡ true
quiet->>= (go a) next h k = k a
quiet->>= (stop action) next h k = h

>>=-eq-go {ℓ κ} :
    {A : Type ℓ} {B : Type κ} (step : Step A) (next : A → Step B) {result : B}
    (h : (step >>= next) ≡ go result)
    → (value : A) × (step ≡ go value) × (next value ≡ go result)
>>=-eq-go (stop action) next h = absurd (cc)
>>=-eq-go (go value) next h = (value, refl, h)

pub go-injective {ℓ} : {A : Type ℓ} {a b : A} → go a ≡ go b → a ≡ b
go-injective h = ground (arith)

one_pod-inv :
    (l : Library) (status_text : Error → String) (c : Config) (r : Reads) (o : AssignmentObject)
    (b : Bound) (w : Workload) (p : Pod) (pods : List Pod)
    → one_pod l status_text c r o b w pods ≡ go p
    → pods ≡ p ∷ []
one_pod-inv l status_text c r o b w p [] h = absurd (cc)
one_pod-inv l status_text c r o b w p (q ∷ []) h = ground (arith)
one_pod-inv l status_text c r o b w p (_ ∷ _ ∷ _) h = absurd (cc)

answer-inv {ℓ} : {A : Type ℓ} (result : Result A) {a : A} → answer result ≡ go a → result ≡ ok a
answer-inv (ok b) h = ground (arith)
answer-inv (err e) h = absurd (cc)

module _ (l : Library) (status_text : Error → String) (c : Config) (r : Reads) where
  template_quiet : (o : AssignmentObject) → quiet (resolve_template l status_text c r o) ≡ true
  unfolding resolve_template progress_conditions condition
  template_quiet o = ground (arith)

  bundle_quiet :
      (o : AssignmentObject) (t : Option TemplateSpec)
      → quiet (resolve_bundle l status_text c r o t) ≡ true
  unfolding resolve_bundle progress_conditions condition
  bundle_quiet o t = ground (arith)

  workload_quiet :
      (o : AssignmentObject) (b : Bound) → quiet (bind_workload l status_text c r o b) ≡ true
  unfolding bind_workload progress_conditions condition
  workload_quiet o b = ground (arith)

  account_quiet :
      (o : AssignmentObject) (b : Bound) (w : Workload) (p : Pod)
      → quiet (check_account l status_text c r o b w p) ≡ true
  unfolding check_account progress_conditions condition
  account_quiet o b w p = ground (arith)

  runtime_quiet :
      (o : AssignmentObject) (b : Bound) (w : Workload) (p : Pod)
      → quiet (check_runtime l status_text c r o b w p) ≡ true
  unfolding check_runtime progress_conditions condition
  runtime_quiet o b w p = ground (arith)

  bind-quiet : (o : AssignmentObject) (b : Bound) → quiet (bind l status_text c r o b) ≡ true
  unfolding bind progress_conditions condition
  bind-quiet o b = quiet->>= (bind_workload l status_text c r o b) _ (workload_quiet o b) (λ w.
      quiet->>= (answer (matching_pods l status_text c r o w)) _ (ground (arith)) (λ pods.
        quiet->>= (one_pod l status_text c r o b w pods) _ (ground (arith)) (λ p.
          quiet->>= (check_account l status_text c r o b w p) _ (account_quiet o b w p) (λ _.
            quiet->>= (check_runtime l status_text c r o b w p) _ (runtime_quiet o b w p)
              (λ _. refl)))))

  steps-quiet : (o : AssignmentObject) → quiet (steps l status_text c r o) ≡ true
  unfolding steps add_finalizer
  steps-quiet o = quiet->>= (add_finalizer l status_text c r o) _ (ground (arith)) (λ _.
      quiet->>= (answer (l.assignment_converts o)) _ (ground (arith)) (λ _.
        quiet->>= (resolve_template l status_text c r o) _ (template_quiet o) (λ t.
          quiet->>= (resolve_bundle l status_text c r o t) _ (bundle_quiet o t)
            (λ b. paused_quiet (is_paused l status_text c r o) b))))
    where
      paused_quiet :
          (paused : Bool) (b : Bound) → quiet (pause_or_bind l status_text c r paused o b) ≡ true
      paused_quiet true b = refl
      paused_quiet false b = bind-quiet o b

  bundle-inv :
      (o : AssignmentObject) (t : Option TemplateSpec) (b : Bound)
      → resolve_bundle l status_text c r o t ≡ go b
      → (r.bundle o.bundle_name ≡ ok b.bundle)
        × (b.bundle.deleting ≡ false)
        × (validate_bundle_policy l b.bundle.spec ≡ ok tt)
        × (contains b.bundle.finalizers bundle_finalizer ≡ true)
        × (l.bundle_revision b.bundle.spec ≡ ok b.revision)
        × (boundary_mismatch o b.bundle.spec b.revision t ≡ false)
        × (b.required ≡ identity_required b.bundle.spec)
  unfolding resolve_bundle
  bundle-inv o t b h = elim (Result-cases (r.bundle o.bundle_name)) [
    | inr (e, bad) ↦ absurd (ground (arith))
    | inl (found, there) ↦ elim (Result-cases (l.bundle_revision found.spec)) [
      | inr (e, bad) ↦ absurd (ground (arith))
      | inl (revision, revised) ↦
          let same : found ≡ b.bundle = ground (arith) in
          let its_revision : revision ≡ b.revision = ground (arith) in
          let its_need : identity_required found.spec ≡ b.required = ground (arith) in
          let agreeing : boundary_mismatch o found.spec revision t ≡ false = ground (arith) in
          rw (sym same) (
            there,
            ground (arith),
            ground (arith),
            ground (arith),
            ground (arith),
            subst (λ z. boundary_mismatch o found.spec z t ≡ false) its_revision agreeing,
            sym its_need,
          )
    ]
  ]

  workload-inv :
      (o : AssignmentObject) (b : Bound) (w : Workload)
      → bind_workload l status_text c r o b ≡ go w
      → (matching_workloads l status_text c r o ≡ ok (w ∷ []))
        × (is_empty (lookup_text sandbox_id_annotation o.annotations) ≡ false)
        × (single l status_text c r w.replicas ≡ true)
        × (ltb w.created_at o.created_at ≡ false)
  unfolding bind_workload
  workload-inv o b w h = ground (arith)

  account-inv :
      (o : AssignmentObject) (b : Bound) (w : Workload) (p : Pod)
      → check_account l status_text c r o b w p ≡ go tt
      → ((a : ServiceAccount) × (r.service_account p.service_account_name ≡ ok a)
          × (validate_eligible_service_account a ≡ ok tt))
        × (validate_isolation p ≡ ok tt)
  unfolding check_account
  account-inv o b w p h = elim (Result-cases (r.service_account p.service_account_name)) [
    | inr (e, bad) ↦ absurd (ground (arith))
    | inl (a, there) ↦ ((a, there, ground (arith)), ground (arith))
  ]

  runtime-inv :
      (o : AssignmentObject) (b : Bound) (w : Workload) (p : Pod)
      → check_runtime l status_text c r o b w p ≡ go tt
      → (fenced l status_text c r o p ≡ false)
        × ((is_empty w.pool_ref && ltb p.created_at o.created_at) ≡ false)
        × (contains c.allowed_runtime_classes (runtime_class_name p) ≡ true)
        × (pod_ready p ≡ true)
        × (b.required ≡ true → validate_mode c.mode p ≡ ok tt)
  unfolding check_runtime
  runtime-inv o b w p h =
      (ground (arith), ground (arith), ground (arith), ground (arith), λ k. ground (arith))

  bind-inv :
      (o : AssignmentObject) (b : Bound) (status : AssignmentStatus)
      → bind l status_text c r o b ≡ go status
      → (w : Workload) × (p : Pod) × (bind_workload l status_text c r o b ≡ go w)
        × (matching_pods l status_text c r o w ≡ ok (p ∷ []))
        × (check_account l status_text c r o b w p ≡ go tt)
        × (check_runtime l status_text c r o b w p ≡ go tt)
        × (ready_status l status_text c r o b w p ≡ status)
  unfolding bind
  bind-inv o b status h =
      let (w, bound, h1) = >>=-eq-go (bind_workload l status_text c r o b) _ h in
      let (pods, answered, h2) = >>=-eq-go (answer (matching_pods l status_text c r o w)) _ h1 in
      let (p, one, h3) = >>=-eq-go (one_pod l status_text c r o b w pods) _ h2 in
      let (u, account, h4) = >>=-eq-go (check_account l status_text c r o b w p) _ h3 in
      let (v, runtime, h5) = >>=-eq-go (check_runtime l status_text c r o b w p) _ h4 in
      let alone = one_pod-inv l status_text c r o b w p pods one in
      (
        w,
        p,
        bound,
        answer-inv (matching_pods l status_text c r o w) answered ∙ ap ok alone,
        account,
        runtime,
        ground (arith),
      )

  pub steps-inv :
      (o : AssignmentObject) (status : AssignmentStatus)
      → steps l status_text c r o ≡ go status
      → (t : Option TemplateSpec) × (b : Bound) × (add_finalizer l status_text c r o ≡ go tt)
        × (resolve_template l status_text c r o ≡ go t)
        × (resolve_bundle l status_text c r o t ≡ go b)
        × (pause_or_bind l status_text c r (is_paused l status_text c r o) o b ≡ go status)
  unfolding steps
  steps-inv o status h =
      let (u, guarded, h1) = >>=-eq-go (add_finalizer l status_text c r o) _ h in
      let (v, typed, h2) = >>=-eq-go (answer (l.assignment_converts o)) _ h1 in
      let (t, template, h3) = >>=-eq-go (resolve_template l status_text c r o) _ h2 in
      let (b, bundle, h4) = >>=-eq-go (resolve_bundle l status_text c r o t) _ h3 in
      (t, b, guarded, template, bundle, h4)

  bound-IsSecured :
      (o : AssignmentObject) (t : Option TemplateSpec) (b : Bound) (status : AssignmentStatus)
      → add_finalizer l status_text c r o ≡ go tt
      → resolve_template l status_text c r o ≡ go t
      → resolve_bundle l status_text c r o t ≡ go b
      → is_paused l status_text c r o ≡ false
      → bind l status_text c r o b ≡ go status
      → (w : Workload) × (p : Pod) × IsSecured l status_text c r o b w p
        × (ready_status l status_text c r o b w p ≡ status)
  unfolding add_finalizer
  bound-IsSecured o t b status guarded template resolved running h =
      let (w, p, bound, alone, account, runtime, same) = bind-inv o b status h in
      let (found, kept, valid, protected, revised, agreeing, required) =
        bundle-inv o t b resolved in
      let (matched, recorded, replica, fresh) = workload-inv o b w bound in
      let (accounted, isolated) = account-inv o b w p account in
      let (unfenced, fresh_pod, class, ready, identity) = runtime-inv o b w p runtime in
      (
        w,
        p,
        record {
          guarded = ground (arith);
          running = running;
          template = t;
          chosen = template;
          agreeing = agreeing;
          required = required;
          bundle_found = found;
          bundle_kept = kept;
          bundle_valid = valid;
          bundle_protected = protected;
          revised = revised;
          one_workload = matched;
          recorded = recorded;
          one_replica = replica;
          fresh_workload = fresh;
          one_pod = alone;
          account = accounted;
          isolated = isolated;
          unfenced = unfenced;
          fresh_pod = fresh_pod;
          runtime = class;
          pod_is_ready = ready;
          identity = identity;
        },
        same,
      )

  last-inv :
      (paused : Bool) (o : AssignmentObject) (b : Bound) (status : AssignmentStatus)
      → pause_or_bind l status_text c r paused o b ≡ go status
      → condition_true "Ready" status.conditions ≡ true
      → (paused ≡ false) × (bind l status_text c r o b ≡ go status)
  unfolding progress_conditions condition
  last-inv true o b status h ready = absurd (cc (rw (← (go-injective h)) at ready))
  last-inv false o b status h ready = (refl, h)

  -- Reconciliation writes a status that says Ready only for an assignment with its finalizer that
  -- is not paused, whose bundle is there, valid and protected from deletion, with exactly one
  -- workload for one replica, not older than the assignment and recorded, exactly one Pod of it,
  -- isolated under an eligible service account, past the resume fence, of an allowed runtime class,
  -- ready, and with its identity in order where the bundle needs one; the status then names this
  -- bundle, workload and Pod.
  pub desire_sound :
      (o : AssignmentObject) (status : AssignmentStatus)
      → desire l status_text c r o ≡ set_status status
      → condition_true "Ready" status.conditions ≡ true
      → (b : Bound) × (w : Workload) × (p : Pod) × IsSecured l status_text c r o b w p
        × (ready_status l status_text c r o b w p ≡ status)
  desire_sound o status h ready = settle (steps l status_text c r o) refl h (steps-quiet o)
    where
      settle :
          (outcome : Step AssignmentStatus)
          → steps l status_text c r o ≡ outcome
          → action_of l status_text c r outcome ≡ set_status status
          → quiet outcome ≡ true
          → (b : Bound) × (w : Workload) × (p : Pod) × IsSecured l status_text c r o b w p
            × (ready_status l status_text c r o b w p ≡ status)
      settle (stop action) e k q = absurd (ground (arith))
      settle (go found) e k q =
          let same : found ≡ status = ground (arith) in
          let (t, b, guarded, template, resolved, last) = steps-inv o status (e ∙ ap go same) in
          let (running, bound) = last-inv (is_paused l status_text c r o) o b status last ready in
          let (w, p, secured, written) =
            bound-IsSecured o t b status guarded template resolved running bound in
          (b, w, p, secured, written)
