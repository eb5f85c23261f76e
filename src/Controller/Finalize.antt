-- ===== src/Controller/Finalize.antt =====
-- internal/assignment/controller/controller.go: `finalize`, `releaseBundleIfUnused`, `reconcile` as a
-- whole and `reconcileAll`. The answers of the API server are those of `Reads` and `Writes`.
pub mod Laws
use opensandbox_aks_governan.Base.{
  ℕ, String, Bool, true, false, not, ◌&&◌, Option, none, some, List, [], ◌∷◌, ◌++◌, any, keep, map,
  contains, if◌then◌else◌, ◌==◌, string_eq, is_empty, Error, not_found, already_exists, conflict,
  canceled, message, wrapped, Result, ok, err,
}
use opensandbox_aks_governan.Cluster.{
  Pod, AssignmentObject, AssignmentStatus, BundleObject, ref_name, ref_namespace, ref_uid,
}
use opensandbox_aks_governan.Controller.Objects.{
  Workload, Reads, Writes, Library, Config, assignment_finalizer, bundle_finalizer,
}
use opensandbox_aks_governan.Controller.Validate.{assignment_uid}
use opensandbox_aks_governan.Controller.Reconcile.{matching_workloads, desire, perform}

-- How a finalization ends: with an error, waiting for an object to go away, with nothing to do, or
-- with the assignment's finalizer removed, and then what became of the bundle's.
pub data Release : Type 0 where
  kept_in_use gone : Release
  unprotected : BundleObject → Release
  not_released : Error → Release

pub data Finalized : Type 0 where
  not_guarded waiting : Finalized
  stuck : Error → Finalized
  revoked : AssignmentObject → Release → Finalized

abbrev pub is_not_found : Error → Bool
is_not_found not_found = true
is_not_found already_exists = false
is_not_found conflict = false
is_not_found canceled = false
is_not_found (message _) = false
is_not_found (wrapped _ _) = false

abbrev pub without : String → List String → List String
without name = keep (λ f. not (f == name))

-- An object is there, is not there, or the answer is an error.
pub data Presence : Type 0 where
  present absent : Presence
  unknown : Error → Presence

abbrev pub presence {ℓ} : {A : Type ℓ} → Result A → Presence
presence (ok _) = present
presence (err e) = if is_not_found e then absent else unknown e

module _ (l : Library) (status_text : Error → String) (c : Config) (r : Reads) (w : Writes) where
  abbrev pub same_bundle_used : AssignmentObject → List AssignmentObject → Result Bool
  same_bundle_used o [] = ok false
  same_bundle_used o (a ∷ rest) =
      let others = same_bundle_used o rest in
      elim (l.assignment_converts a) [
        | err e ↦ err e
        | ok _ ↦ if not (a.uid == o.uid) && a.bundle_name == o.bundle_name then ok true else others
      ]

  abbrev pub unprotect : BundleObject → Release
  unprotect b = elim (w.bundle (record b { finalizers = without bundle_finalizer b.finalizers })) [
    | err e ↦ not_released e
    | ok _ ↦ unprotected (record b { finalizers = without bundle_finalizer b.finalizers })
  ]

  abbrev pub release_found : Result BundleObject → Release
  release_found (err e) = if is_not_found e then gone else not_released e
  release_found (ok b) = unprotect b

  abbrev pub release_unused : AssignmentObject → Result Bool → Release
  release_unused o (err e) = not_released e
  release_unused o (ok true) = kept_in_use
  release_unused o (ok false) = release_found (r.bundle o.bundle_name)

  abbrev pub release_listed : AssignmentObject → Result (List AssignmentObject) → Release
  release_listed o (err e) = not_released e
  release_listed o (ok list) = release_unused o (same_bundle_used o list)

  unfoldable pub release_bundle_if_unused : AssignmentObject → Release
  release_bundle_if_unused o = elim (l.assignment_converts o) [
    | err e ↦ not_released e
    | ok _ ↦ release_listed o r.assignments
  ]

  abbrev pub workload_namespace_of : AssignmentObject → String
  workload_namespace_of o =
      if is_empty (ref_namespace o.status.workload_ref)
      then c.workload_namespace
      else ref_namespace o.status.workload_ref

  unfoldable pub workload_names : AssignmentObject → Result (List String)
  workload_names o =
      if not (is_empty (ref_name o.status.workload_ref))
      then ok (ref_name o.status.workload_ref ∷ [])
      else elim (matching_workloads l status_text c r o) [
        | err e ↦ err e
        | ok list ↦ ok (map (λ v. v.name) list)
      ]

  -- The workloads are deleted one after the other; an object that is still there is waited for.
  abbrev pub delete_one : String → String → Presence
  delete_one namespace name =
      let looked = presence (r.workload namespace name) in
      elim (presence (w.delete_workload namespace name)) [
        | present ↦ looked
        | absent ↦ looked
        | unknown e ↦ unknown e
      ]

  unfoldable pub delete_workloads : String → List String → Presence
  delete_workloads namespace [] = absent
  delete_workloads namespace (name ∷ rest) =
      let others = delete_workloads namespace rest in
      elim (delete_one namespace name) [
        | absent ↦ others
        | present ↦ present
        | unknown e ↦ unknown e
      ]

  abbrev pub bound_pod_answer : String → Result Pod → Presence
  bound_pod_answer uid (ok p) = if p.uid == uid then present else absent
  bound_pod_answer uid (err e) = if is_not_found e then absent else unknown e

  unfoldable pub bound_pod_presence : AssignmentObject → Presence
  bound_pod_presence o =
      if is_empty (ref_name o.status.pod_ref)
      then absent
      else bound_pod_answer (ref_uid o.status.pod_ref) (r.pod (ref_name o.status.pod_ref))

  abbrev pub claimed : AssignmentObject → Pod → Bool
  claimed o p = assignment_uid p.annotations == o.uid

  abbrev pub labelled_pods : AssignmentObject → Result (List Pod) → Presence
  labelled_pods o (err e) = unknown e
  labelled_pods o (ok list) = if any (claimed o) list then present else absent

  abbrev pub unguarded : AssignmentObject → AssignmentObject
  unguarded o = record o { finalizers = without assignment_finalizer o.finalizers }

  abbrev pub let_go : AssignmentObject → Result (Unit {0}) → Finalized
  let_go o (err e) = stuck e
  let_go o (ok _) = revoked (unguarded o) (release_bundle_if_unused o)

  -- Go on where the object is gone.
  abbrev pub when_gone : Presence → Finalized → Finalized
  when_gone absent rest = rest
  when_gone present rest = waiting
  when_gone (unknown e) rest = stuck e

  abbrev pub delete_named : AssignmentObject → Result (List String) → Finalized
  delete_named o (err e) = stuck e
  delete_named o (ok names) = when_gone (delete_workloads (workload_namespace_of o) names) (
      when_gone (bound_pod_presence o)
        (when_gone (labelled_pods o (r.pods o.name)) (let_go o (w.assignment (unguarded o)))))

  unfoldable pub finalize : AssignmentObject → Finalized
  finalize o =
      let deleted = delete_named o (workload_names o) in
      if contains o.finalizers assignment_finalizer then deleted else not_guarded

  abbrev pub release_error : Release → Result (Unit {0})
  release_error kept_in_use = ok tt
  release_error gone = ok tt
  release_error (unprotected _) = ok tt
  release_error (not_released e) = err e

  abbrev pub finalized_error : Finalized → Result (Unit {0})
  finalized_error not_guarded = ok tt
  finalized_error waiting = ok tt
  finalized_error (stuck e) = err e
  finalized_error (revoked _ release) = release_error release

  unfoldable pub reconcile : AssignmentObject → Result (Unit {0})
  reconcile o =
      let live = perform w o (desire l status_text c r o) in
      if o.deleting then finalized_error (finalize o) else live

-- `errors.Join` of the errors, each with its assignment's name. Every reconciliation has answers of
-- its own, so the pass over the list takes them as a function.
abbrev pub add_error : String → Result (Unit {0}) → List (String × Error) → List (String × Error)
add_error name (ok _) rest = rest
add_error name (err e) rest = (name, e) ∷ rest

unfoldable pub reconcile_list :
    (AssignmentObject → Result (Unit {0})) → List AssignmentObject → List (String × Error)
reconcile_list pass [] = []
reconcile_list pass (o ∷ rest) = add_error o.name (pass o) (reconcile_list pass rest)

abbrev pub reconcile_all :
    (AssignmentObject → Result (Unit {0}))
    → Result (List AssignmentObject)
    → Result (List (String × Error))
reconcile_all pass (err e) = err e
reconcile_all pass (ok list) = ok (reconcile_list pass list)
