-- ===== src/Controller/Reconcile/Secured.antt =====
-- internal/assignment/controller/controller.go: the objects behind a status that says Ready.
use opensandbox_aks_governan.Base.{
  ◌≤◌, ℤ, pos, negsuc, String, true, false, ◌==◌, string_eq, eq_iff, Option, none, some, List, [],
  ◌∷◌, ◌≡◌, ◌≢◌, ◌⊎◌, inl, inr, ap, ◌∙◌, arith, contains, is_empty, keep, Bool-cases, Result-cases,
  ok, Error,
}
use opensandbox_aks_governan.Cluster.{
  Pod, ServiceAccount, AssignmentObject, AssignmentStatus, condition_true, lookup_text,
  unset_or_true, paused_annotation, resume_after_pod_uid_annotation, eligible_label,
}
use opensandbox_aks_governan.Controller.Objects.{
  TemplateSpec, Workload, Reads, Library, Config, assignment_finalizer, bundle_finalizer,
}
use opensandbox_aks_governan.Controller.Validate.{
  assignment_uid, validate_bundle_policy, runtime_class_name, validate_eligible_service_account,
  validate_isolation, validate_mode,
}
use opensandbox_aks_governan.Controller.Reconcile.{
  set_status, go, Bound, identity_required, resolve_template, matching_workloads, single, fenced,
  ready_status, desire,
}
use opensandbox_aks_governan.Controller.Reconcile.Laws.{IsSecured, desire_sound}
use opensandbox_aks_governan.Controller.Reconcile.Pods.{
  IsAgreed, agreeing-IsAgreed, IsPodOf, pods-IsPodOf,
}

module _ (l : Library) (status_text : Error → String) (c : Config) (r : Reads) where
  -- An assignment that its bundle, its one workload and its one Pod make ready.
  pub record IsReady (o : AssignmentObject) (b : Bound) (w : Workload) (p : Pod) : Type 0 where
    pub guarded : contains o.finalizers assignment_finalizer ≡ true
    pub running : lookup_text paused_annotation o.annotations ≢ "true"
    pub template : Option TemplateSpec
    pub chosen : resolve_template l status_text c r o ≡ go template
    pub agreed : IsAgreed o b.bundle.spec b.revision template
    pub bundle_found : r.bundle o.bundle_name ≡ ok b.bundle
    pub bundle_kept : b.bundle.deleting ≡ false
    pub bundle_valid : validate_bundle_policy l b.bundle.spec ≡ ok tt
    pub bundle_protected : contains b.bundle.finalizers bundle_finalizer ≡ true
    pub revised : l.bundle_revision b.bundle.spec ≡ ok b.revision
    pub workloads : List Workload
    pub listed : r.workloads o.name ≡ ok workloads
    pub one_workload : keep (λ v. assignment_uid v.annotations == o.uid) workloads ≡ w ∷ []
    pub one_replica : w.replicas ≡ some (pos 1)
    pub fresh_workload : o.created_at ≤ w.created_at
    pub its_pod : IsPodOf l r o w p
    pub account : ServiceAccount
    pub account_found : r.service_account p.service_account_name ≡ ok account
    pub eligible : lookup_text eligible_label account.labels ≡ "true"
    pub unmounted : unset_or_true account.automount ≡ false
    pub isolated : unset_or_true p.automount ≡ false
    pub past_fence :
        (is_empty (lookup_text resume_after_pod_uid_annotation o.annotations) ≡ true)
        ⊎ (lookup_text resume_after_pod_uid_annotation o.annotations ≢ p.uid)
    pub runtime : contains c.allowed_runtime_classes (runtime_class_name p) ≡ true
    pub pod_is_ready : condition_true "Ready" p.conditions ≡ true
    pub identity : identity_required b.bundle.spec ≡ true → validate_mode c.mode p ≡ ok tt

  matching-listed :
      (o : AssignmentObject) (w : Workload)
      → matching_workloads l status_text c r o ≡ ok (w ∷ [])
      → (list : List Workload) × (r.workloads o.name ≡ ok list)
        × (keep (λ v. assignment_uid v.annotations == o.uid) list ≡ w ∷ [])
  unfolding matching_workloads
  matching-listed o w h = elim (Result-cases (r.workloads o.name)) [
    | inr (e, bad) ↦ absurd (ground (arith))
    | inl (list, listed) ↦ (list, listed, ground (arith))
  ]

  single-one : (n : Option ℤ) → single l status_text c r n ≡ true → n ≡ some (pos 1)
  single-one none h = cc
  single-one (some (pos n)) h = ap (λ z. some (pos z)) (ground (arith))
  single-one (some (negsuc n)) h = cc

  unfenced-past :
      (o : AssignmentObject) (p : Pod)
      → fenced l status_text c r o p ≡ false
      → (is_empty (lookup_text resume_after_pod_uid_annotation o.annotations) ≡ true)
        ⊎ (lookup_text resume_after_pod_uid_annotation o.annotations ≢ p.uid)
  unfenced-past o p h =
      elim (Bool-cases (is_empty (lookup_text resume_after_pod_uid_annotation o.annotations))) [
        | inl blank ↦ inl blank
        | inr set ↦ inr (λ e.
            ground
              (arith, eq_iff (lookup_text resume_after_pod_uid_annotation o.annotations) p.uid, e))
      ]

  eligible-account :
      (a : ServiceAccount)
      → validate_eligible_service_account a ≡ ok tt
      → (lookup_text eligible_label a.labels ≡ "true") × (unset_or_true a.automount ≡ false)
  unfolding validate_eligible_service_account
  eligible-account a h =
      (ground (arith, eq_iff (lookup_text eligible_label a.labels) "true"), ground (arith))

  isolated-pod : (p : Pod) → validate_isolation p ≡ ok tt → unset_or_true p.automount ≡ false
  unfolding validate_isolation
  isolated-pod p h = ground (arith)

  secured-IsReady :
      (o : AssignmentObject) (b : Bound) (w : Workload) (p : Pod)
      → IsSecured l status_text c r o b w p
      → IsReady o b w p
  secured-IsReady o b w p s =
      let (workloads, listed, alone) = matching-listed o w s.one_workload in
      let (a, account_found, valid_account) = s.account in
      let (eligible, unmounted) = eligible-account a valid_account in
      record {
        guarded = s.guarded;
        running = λ e.
            ground
              (arith, eq_iff (lookup_text paused_annotation o.annotations) "true", e, s.running);
        template = s.template;
        chosen = s.chosen;
        agreed = agreeing-IsAgreed o b.bundle.spec b.revision s.template s.agreeing;
        bundle_found = s.bundle_found;
        bundle_kept = s.bundle_kept;
        bundle_valid = s.bundle_valid;
        bundle_protected = s.bundle_protected;
        revised = s.revised;
        workloads = workloads;
        listed = listed;
        one_workload = alone;
        one_replica = single-one w.replicas s.one_replica;
        fresh_workload = ground (arith, s.fresh_workload);
        its_pod = pods-IsPodOf l status_text c r o w p s.one_pod s.fresh_pod;
        account = a;
        account_found = account_found;
        eligible = eligible;
        unmounted = unmounted;
        isolated = isolated-pod p s.isolated;
        past_fence = unfenced-past o p s.unfenced;
        runtime = s.runtime;
        pod_is_ready = s.pod_is_ready;
        identity = λ need. s.identity (s.required ∙ need);
      }

  -- Reconciliation writes a status that says Ready only for an assignment that has its finalizer, is
  -- not paused, and whose template, if it has one, is accepted and agrees with the bundle's revision
  -- and tenant. Its bundle is there, is not being deleted, has a valid policy and its own finalizer.
  -- Exactly one listed workload has the assignment's UID; it asks for one replica and is no older than
  -- the assignment. Exactly one Pod is the workload's: its own live one with the assignment's UID, no
  -- older than the assignment, or the live one that its pool allocated. That Pod's service account is
  -- there, is eligible and mounts no token, nor does the Pod; the Pod is not the one before the last
  -- resume, has an allowed runtime class, is ready, and has its identity in order if the bundle has
  -- egress rules. The status then names this bundle, this workload and this Pod.
  pub desire-IsReady :
      (o : AssignmentObject) (status : AssignmentStatus)
      → desire l status_text c r o ≡ set_status status
      → condition_true "Ready" status.conditions ≡ true
      → (b : Bound) × (w : Workload) × (p : Pod) × IsReady o b w p
        × (ready_status l status_text c r o b w p ≡ status)
  desire-IsReady o status h ready =
      let (b, w, p, secured, same) = desire_sound l status_text c r o status h ready in
      (b, w, p, secured-IsReady o b w p secured, same)
