-- ===== src/Controller/Reconcile/Stable.antt =====
-- Reconciliation comes to rest: once the status that it wants is the status, it writes nothing more.
use opensandbox_aks_governan.Base.{
  String, Bool, true, false, Option, ◌≡◌, refl, sym, ap, subst, is_empty, ◌∙◌, arith, Error, Result,
  ok, err,
}
use opensandbox_aks_governan.Cluster.{
  AssignmentObject, AssignmentStatus, lookup_text, sandbox_id_annotation,
}
use opensandbox_aks_governan.Controller.Objects.{TemplateSpec, Reads, Writes, Library, Config}
use opensandbox_aks_governan.Controller.Conditions.Laws.{status_equivalent_iff}
use opensandbox_aks_governan.Controller.Reconcile.{
  set_status, update_assignment, update_bundle, failed, stop_if, one_workload, Step, go, stop,
  ◌>>=◌, answer, Bound, resolve_template, resolve_bundle, paused_status, bind_workload,
  matching_workloads, matching_pods, check_account, check_runtime, is_paused, add_finalizer, bind,
  pause_or_bind, steps, action_of, desire, perform,
}
use opensandbox_aks_governan.Controller.Reconcile.Laws.{go-injective, steps-inv}

-- Two steps that do the same, unless the first stops with something else than a status.
abbrev Same {ℓ} : {A : Type ℓ} → Step A → Step A → Type ℓ
Same (go a) other = other ≡ go a
Same (stop (set_status status)) other = other ≡ stop (set_status status)
Same (stop (update_assignment _)) other = Unit
Same (stop (update_bundle _)) other = Unit
Same (stop (failed _)) other = Unit

Same-refl {ℓ} : {A : Type ℓ} (step : Step A) → Same step step
Same-refl (go a) = refl
Same-refl (stop (set_status status)) = refl
Same-refl (stop (update_assignment _)) = tt
Same-refl (stop (update_bundle _)) = tt
Same-refl (stop (failed _)) = tt

Same->>= {ℓ} :
    {A B : Type ℓ} (step other : Step A) (next next' : A → Step B)
    → Same step other
    → ((a : A) → Same (next a) (next' a))
    → Same (step >>= next) (other >>= next')
Same->>= (go a) other next next' h k = subst (λ z. Same (next a) (z >>= next')) (sym h) (k a)
Same->>= (stop (set_status status)) other next next' h k = ap (λ z. z >>= next') h
Same->>= (stop (update_assignment _)) other next next' h k = tt
Same->>= (stop (update_bundle _)) other next next' h k = tt
Same->>= (stop (failed _)) other next next' h k = tt

Same-update :
    (test : Bool) (a b : AssignmentObject)
    → Same (stop_if test (update_assignment a)) (stop_if test (update_assignment b))
Same-update true a b = tt
Same-update false a b = refl

-- Two steps that stop with the same status, if the first stops with one.
abbrev Alike {ℓ} : {A : Type ℓ} → Step A → Step A → Type ℓ
Alike (go a) other = Unit
Alike (stop (set_status status)) other = other ≡ stop (set_status status)
Alike (stop (update_assignment _)) other = Unit
Alike (stop (update_bundle _)) other = Unit
Alike (stop (failed _)) other = Unit

Alike-Same {ℓ} : {A : Type ℓ} (step other : Step A) → Same step other → Alike step other
Alike-Same (go a) other h = tt
Alike-Same (stop (set_status status)) other h = h
Alike-Same (stop (update_assignment _)) other h = tt
Alike-Same (stop (update_bundle _)) other h = tt
Alike-Same (stop (failed _)) other h = tt

Alike->>= {ℓ} :
    {A B : Type ℓ} (step other : Step A) (next next' : A → Step B)
    → Same step other
    → ((a : A) → Alike (next a) (next' a))
    → Alike (step >>= next) (other >>= next')
Alike->>= (go a) other next next' h k = subst (λ z. Alike (next a) (z >>= next')) (sym h) (k a)
Alike->>= (stop (set_status status)) other next next' h k = ap (λ z. z >>= next') h
Alike->>= (stop (update_assignment _)) other next next' h k = tt
Alike->>= (stop (update_bundle _)) other next next' h k = tt
Alike->>= (stop (failed _)) other next next' h k = tt

module _ (l : Library) (status_text : Error → String) (c : Config) (r : Reads)
    (o : AssignmentObject) (status : AssignmentStatus) where
  abbrev pub settled : AssignmentObject
  settled = record o { status = status }

  template_same : resolve_template l status_text c r settled ≡ resolve_template l status_text c r o
  unfolding resolve_template
  template_same = refl

  bundle_same :
      (t : Option TemplateSpec)
      → resolve_bundle l status_text c r settled t ≡ resolve_bundle l status_text c r o t
  unfolding resolve_bundle
  bundle_same t = refl

  workload-Same :
      (b : Bound)
      → Same (bind_workload l status_text c r o b) (bind_workload l status_text c r settled b)
  unfolding bind_workload matching_workloads
  workload-Same b =
      Same->>= (answer (matching_workloads l status_text c r o)) _ _ _ (Same-refl _) (λ list.
        Same->>= (one_workload l status_text c r o b list) _ _ _ (Same-refl _) (λ w.
          Same->>= (stop_if (is_empty (lookup_text sandbox_id_annotation o.annotations)) _) _ _ _
            (Same-update _ _ _) (λ _. Same-refl _)))

  bind-Same : (b : Bound) → Same (bind l status_text c r o b) (bind l status_text c r settled b)
  unfolding bind matching_pods check_account check_runtime
  bind-Same b =
      Same->>= (bind_workload l status_text c r o b) _ _ _ (workload-Same b) (λ w. Same-refl _)

  finalizer-Same :
      Same (add_finalizer l status_text c r o) (add_finalizer l status_text c r settled)
  unfolding add_finalizer
  finalizer-Same = Same-update _ _ _

  paused_same :
      (b : Bound)
      → paused_status l status_text c r o b ≡ status
      → paused_status l status_text c r settled b ≡ status
  paused_same b h =
      ap (λ z. paused_status l status_text c r (record o { status = z }) b) (sym h) ∙ h

  last_same :
      (paused : Bool) (b : Bound)
      → pause_or_bind l status_text c r paused o b ≡ go status
      → pause_or_bind l status_text c r paused settled b ≡ go status
  last_same true b h = ap go (paused_same b (go-injective h))
  last_same false b h = subst (λ z. Same z (bind l status_text c r settled b)) h (bind-Same b)

  go_same :
      l.assignment_converts settled ≡ ok tt
      → steps l status_text c r o ≡ go status
      → steps l status_text c r settled ≡ go status
  unfolding steps
  go_same converts h =
      let (t, b, guarded, template, resolved, last) = steps-inv l status_text c r o status h in
      rw
        (
          subst (λ z. Same z (add_finalizer l status_text c r settled)) guarded finalizer-Same,
          converts,
          template_same ∙ template,
          bundle_same t ∙ resolved,
        )
        (last_same (is_paused l status_text c r o) b last)

  stop_same :
      l.assignment_converts settled ≡ ok tt
      → steps l status_text c r o ≡ stop (set_status status)
      → steps l status_text c r settled ≡ stop (set_status status)
  unfolding steps resolve_template resolve_bundle
  stop_same converts h =
      subst (λ z. Alike z (steps l status_text c r settled)) h
        (Alike->>= (add_finalizer l status_text c r o) _ _ _ finalizer-Same (λ _.
          Alike->>= (answer (l.assignment_converts o)) _ _ _ (converted (l.assignment_converts o))
            (λ _. Alike->>= (resolve_template l status_text c r o) _ _ _ (Same-refl _) (λ t.
              Alike->>= (resolve_bundle l status_text c r o t) _ _ _ (Same-refl _)
                (λ b. last (is_paused l status_text c r o) b)))))
    where
      last :
          (paused : Bool) (b : Bound)
          → Alike
              (pause_or_bind l status_text c r paused o b)
              (pause_or_bind l status_text c r paused settled b)
      last true b = tt
      last false b = Alike-Same _ _ (bind-Same b)

      converted :
          (answered : Result (Unit {0}))
          → Same (answer answered) (answer (l.assignment_converts settled))
      converted (ok _) = ap answer converts
      converted (err e) = tt

  -- Once reconciliation has written the status that it wants, and the assignment still converts, it
  -- wants the same status again, and writes nothing.
  pub reconcile_settles :
      (w : Writes)
      → desire l status_text c r o ≡ set_status status
      → l.assignment_converts settled ≡ ok tt
      → (desire l status_text c r settled ≡ set_status status)
        × (perform w settled (desire l status_text c r settled) ≡ ok tt)
  reconcile_settles w h converts =
      let wanted = same (steps l status_text c r o) refl h in
      (
        wanted,
        ap (perform w settled) wanted ∙ rw ((status_equivalent_iff status status).1 refl) refl,
      )
    where
      same :
          (outcome : Step AssignmentStatus)
          → steps l status_text c r o ≡ outcome
          → action_of l status_text c r outcome ≡ set_status status
          → desire l status_text c r settled ≡ set_status status
      same (go found) e k =
          ap (action_of l status_text c r) (go_same converts (e ∙ ap go (ground (arith))))
      same (stop action) e k = ap (action_of l status_text c r) (stop_same converts (e ∙ ap stop k))
