-- ===== src/Controller/Reconcile/Pods.antt =====
-- internal/assignment/controller/controller.go: the tenant's agreement and the one Pod of a workload.
use opensandbox_aks_governan.Base.{
  ◌≤◌, String, Bool, true, false, not, ◌&&◌, ◌==◌, string_eq, eq_iff, Option, none, some, List, [],
  ◌∷◌, ◌≡◌, ◌⊎◌, inl, inr, refl, sym, ap, ◌∙◌, arith, ltb, is_empty, keep, Bool-cases, Result, ok,
  err, Error,
}
use opensandbox_aks_governan.Cluster.{Pod, AssignmentObject, BundleSpec}
use opensandbox_aks_governan.Controller.Objects.{
  TemplateSpec, Workload, Pool, Reads, Library, Config,
}
use opensandbox_aks_governan.Controller.Validate.{assignment_uid, owned_by}
use opensandbox_aks_governan.Controller.Reconcile.{
  governed_tenant, is_tenant, boundary_mismatch, pool_pod, allocated, pool_pods, matching_pods,
}

-- The template, if there is one, names the bundle's revision, and the assignment's tenant, which it
-- has, is the bundle's.
abbrev pub IsAgreed : AssignmentObject → BundleSpec → String → Option TemplateSpec → Type 0
IsAgreed o spec revision none = Unit
IsAgreed o spec revision (some t) =
    (t.bundle_revision ≡ revision)
    × (is_empty o.logical_tenant ≡ false)
    × (governed_tenant spec.governance ≡ some o.logical_tenant)

tenant-same :
    (tenant : String) (found : Option String) → is_tenant tenant found ≡ true → found ≡ some tenant
tenant-same tenant none h = cc
tenant-same tenant (some t) h = ap some (sym (ground (arith, eq_iff tenant t)))

pub agreeing-IsAgreed :
    (o : AssignmentObject) (spec : BundleSpec) (revision : String) (template : Option TemplateSpec)
    → boundary_mismatch o spec revision template ≡ false
    → IsAgreed o spec revision template
agreeing-IsAgreed o spec revision none h = tt
agreeing-IsAgreed o spec revision (some t) h = (
  ground (arith, eq_iff t.bundle_revision revision),
  ground (arith),
  tenant-same o.logical_tenant (governed_tenant spec.governance) (ground (arith)),
)

-- The one Pod of a workload: of the Pods under the assignment's name, the only one that is not being
-- deleted, has the assignment's UID and is the workload's, and no older than the assignment; or, from
-- a pool that replaces its Pods, the only one that the workload was allocated, which is the pool's.
pub data IsPodOf (l : Library) (r : Reads) (o : AssignmentObject) (w : Workload) (p : Pod)
    : Type 0 where
  its_own :
      (list : List Pod)
      → is_empty w.pool_ref ≡ true
      → r.pods o.name ≡ ok list
      → keep
          (λ q.
            assignment_uid q.annotations == o.uid
            && owned_by "BatchSandbox" w.uid q.owner_references
            && not q.deleting)
          list
        ≡ p ∷ []
      → o.created_at ≤ p.created_at
      → IsPodOf l r o w p
  pooled :
      (pool : Pool) (name : String)
      → is_empty w.pool_ref ≡ false
      → r.pool w.pool_ref ≡ ok pool
      → (pool.recycle_type ≡ "Delete") ⊎ (pool.recycle_type ≡ "Replace")
      → l.allocated_pods w.allocation ≡ ok (name ∷ [])
      → r.pod name ≡ ok p
      → p.deleting ≡ false
      → owned_by "Pool" pool.uid p.owner_references ≡ true
      → IsPodOf l r o w p

module _ (l : Library) (status_text : Error → String) (c : Config) (r : Reads) where
  same_pods : {a b : List Pod} → ok a ≡ ok b → a ≡ b
  same_pods e = cc

  own-listed :
      (o : AssignmentObject) (w : Workload) (p : Pod) (answer : Result (List Pod))
      → elim answer [
        | err e ↦ err e
        | ok list ↦ ok (
            keep
              (λ q.
                assignment_uid q.annotations == o.uid
                && owned_by "BatchSandbox" w.uid q.owner_references
                && not q.deleting)
              list)
      ]
        ≡ ok (p ∷ [])
      → (list : List Pod) × (answer ≡ ok list)
        × (keep
              (λ q.
                assignment_uid q.annotations == o.uid
                && owned_by "BatchSandbox" w.uid q.owner_references
                && not q.deleting)
              list
            ≡ p ∷ [])
  own-listed o w p (err e) h = absurd (cc)
  own-listed o w p (ok list) h = (list, refl, same_pods h)

  pool_pod-found :
      (pool : Pool) (p : Pod) (answer : Result Pod)
      → pool_pod l status_text c r pool answer ≡ ok (p ∷ [])
      → (answer ≡ ok p)
        × (p.deleting ≡ false)
        × (owned_by "Pool" pool.uid p.owner_references ≡ true)
  pool_pod-found pool p (err e) h = absurd (ground (arith))
  pool_pod-found pool p (ok q) h =
      let same : q ≡ p = ground (arith) in
      (
        ap ok same,
        sym (ap (λ z. z.deleting) same) ∙ ground (arith),
        sym (ap (λ z. owned_by "Pool" pool.uid z.owner_references) same) ∙ ground (arith),
      )

  allocated-one :
      (pool : Pool) (p : Pod) (answer : Result (List String))
      → allocated l status_text c r pool answer ≡ ok (p ∷ [])
      → (name : String) × (answer ≡ ok (name ∷ []))
        × (pool_pod l status_text c r pool (r.pod name) ≡ ok (p ∷ []))
  allocated-one pool p (err e) h = absurd (ground (arith))
  allocated-one pool p (ok []) h = absurd (ground (arith))
  allocated-one pool p (ok (name ∷ [])) h = (name, refl, h)
  allocated-one pool p (ok (_ ∷ _ ∷ _)) h = absurd (ground (arith))

  pool_pods-found :
      (w : Workload) (p : Pod) (answer : Result Pool)
      → pool_pods l status_text c r w answer ≡ ok (p ∷ [])
      → (pool : Pool) × (answer ≡ ok pool)
        × ((pool.recycle_type ≡ "Delete") ⊎ (pool.recycle_type ≡ "Replace"))
        × (allocated l status_text c r pool (l.allocated_pods w.allocation) ≡ ok (p ∷ []))
  pool_pods-found w p (err e) h = absurd (ground (arith))
  pool_pods-found w p (ok pool) h = (pool, refl, recycled, ground (arith))
    where
      recycled : (pool.recycle_type ≡ "Delete") ⊎ (pool.recycle_type ≡ "Replace")
      recycled = elim (Bool-cases (pool.recycle_type == "Delete")) [
        | inl deletes ↦ inl (ground (arith, eq_iff pool.recycle_type "Delete"))
        | inr other ↦ inr (ground (arith, eq_iff pool.recycle_type "Replace"))
      ]

  pub pods-IsPodOf :
      (o : AssignmentObject) (w : Workload) (p : Pod)
      → matching_pods l status_text c r o w ≡ ok (p ∷ [])
      → (is_empty w.pool_ref && ltb p.created_at o.created_at) ≡ false
      → IsPodOf l r o w p
  unfolding matching_pods
  pods-IsPodOf o w p h fresh = from (is_empty w.pool_ref) refl h
    where
      from :
          (own : Bool)
          → is_empty w.pool_ref ≡ own
          → elim own [
            | false ↦ pool_pods l status_text c r w (r.pool w.pool_ref)
            | true ↦ elim (r.pods o.name) [
              | err e ↦ err e
              | ok list ↦ ok (
                  keep
                    (λ q.
                      assignment_uid q.annotations == o.uid
                      && owned_by "BatchSandbox" w.uid q.owner_references
                      && not q.deleting)
                    list)
            ]
          ]
            ≡ ok (p ∷ [])
          → IsPodOf l r o w p
      from true own k =
          let (list, listed, alone) = own-listed o w p (r.pods o.name) k in
          its_own list own listed alone (ground (arith))
      from false from_pool k =
          let (pool, found, recycled, chosen) = pool_pods-found w p (r.pool w.pool_ref) k in
          let (name, named, got) = allocated-one pool p (l.allocated_pods w.allocation) chosen in
          let (read, live, owned) = pool_pod-found pool p (r.pod name) got in
          pooled pool name from_pool found recycled named read live owned
