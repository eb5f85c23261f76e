-- ===== src/Controller/Finalize/Laws.antt =====
-- When an assignment loses its finalizer, and when a bundle does.
use opensandbox_aks_governan.Base.{
  String, true, false, not, ◌&&◌, List, [], ◌∷◌, ◌≡◌, refl, sym, ap, subst, ◌∙◌, inl, inr, arith,
  any, map, keep, ◌≢◌, ◌⊎◌, Bool-cases, is_empty, All, contains, ◌==◌, string_eq, eq_iff, Error,
  not_found, already_exists, conflict, canceled, message, wrapped, Result, ok, err, Result-cases,
}
use opensandbox_aks_governan.Cluster.{Pod, ref_name, ref_uid, AssignmentObject, BundleObject}
use opensandbox_aks_governan.Controller.Objects.{
  Workload, Reads, Writes, Library, Config, assignment_finalizer, bundle_finalizer,
}
use opensandbox_aks_governan.Controller.Finalize.{
  Release, unprotected, Finalized, revoked, without, Presence, present, absent, unknown, presence,
  is_not_found, same_bundle_used, release_found, release_bundle_if_unused, workload_namespace_of,
  workload_names, delete_one, delete_workloads, bound_pod_answer, bound_pod_presence, claimed,
  labelled_pods, unguarded, let_go, when_gone, delete_named, finalize,
}
use opensandbox_aks_governan.Controller.Validate.{assignment_uid}
use opensandbox_aks_governan.Controller.Reconcile.{matching_workloads}

is_not_found-eq : (e : Error) → is_not_found e ≡ true → e ≡ not_found
is_not_found-eq not_found h = refl
is_not_found-eq already_exists h = absurd (cc)
is_not_found-eq conflict h = absurd (cc)
is_not_found-eq canceled h = absurd (cc)
is_not_found-eq (message _) h = absurd (cc)
is_not_found-eq (wrapped _ _) h = absurd (cc)

presence-absent {ℓ} :
    {A : Type ℓ} (answer : Result A) → presence answer ≡ absent → answer ≡ err not_found
presence-absent (ok a) h = absurd (cc)
presence-absent (err e) h = ap err (is_not_found-eq e (ground (arith)))

contains-without : (name : String) (fs : List String) → contains (without name fs) name ≡ false
contains-without name [] = refl
contains-without name (f ∷ fs) = ground (arith, eq_iff f name, contains-without name fs)

when_gone-revoked :
    (l : Library) (status_text : Error → String) (c : Config) (r : Reads) (w : Writes)
    (p : Presence) (rest : Finalized) (o : AssignmentObject) (release : Release)
    → when_gone l status_text c r w p rest ≡ revoked o release
    → (p ≡ absent) × (rest ≡ revoked o release)
when_gone-revoked l status_text c r w absent rest o release h = (refl, h)
when_gone-revoked l status_text c r w present rest o release h = absurd (cc)
when_gone-revoked l status_text c r w (unknown e) rest o release h = absurd (cc)

-- The answer on a Pod that is not there, or is another one than that of this UID.
abbrev pub IsOther : String → Result Pod → Type 0
IsOther uid (ok p) = p.uid ≢ uid
IsOther uid (err e) = e ≡ not_found

-- The names of the workloads of an assignment: the one in its status, or those of its UID.
pub data IsWorkloads (r : Reads) (o : AssignmentObject) : List String → Type 0 where
  in_status :
      is_empty (ref_name o.status.workload_ref) ≡ false
      → IsWorkloads r o (ref_name o.status.workload_ref ∷ [])
  of_uid :
      (list : List Workload)
      → is_empty (ref_name o.status.workload_ref) ≡ true
      → r.workloads o.name ≡ ok list
      → IsWorkloads r o (map (λ w. w.name) (keep (λ w. assignment_uid w.annotations == o.uid) list))

-- What is gone when an assignment loses its finalizer: its workloads, its bound Pod and every Pod
-- that names it.
pub record IsGone (l : Library) (status_text : Error → String) (c : Config) (r : Reads) (w : Writes)
    (o : AssignmentObject) (names : List String) (pods : List Pod) : Type 0 where
  pub named : IsWorkloads r o names
  pub workloads_gone :
      All
        (λ name. r.workload (workload_namespace_of l status_text c r w o) name ≡ err not_found)
        names
  pub bound_gone :
      (is_empty (ref_name o.status.pod_ref) ≡ true)
      ⊎ IsOther (ref_uid o.status.pod_ref) (r.pod (ref_name o.status.pod_ref))
  pub listed : r.pods o.name ≡ ok pods
  pub none_claims : All (λ p. assignment_uid p.annotations ≢ o.uid) pods

module _ (l : Library) (status_text : Error → String) (c : Config) (r : Reads) (w : Writes) where
  delete_one-absent :
      (namespace name : String)
      → delete_one l status_text c r w namespace name ≡ absent
      → r.workload namespace name ≡ err not_found
  delete_one-absent namespace name h = looked (presence (w.delete_workload namespace name)) h
    where
      looked :
          (deleted : Presence)
          → elim deleted [
            | present ↦ presence (r.workload namespace name)
            | absent ↦ presence (r.workload namespace name)
            | unknown e ↦ unknown e
          ]
            ≡ absent
          → r.workload namespace name ≡ err not_found
      looked present k = presence-absent (r.workload namespace name) k
      looked absent k = presence-absent (r.workload namespace name) k
      looked (unknown e) k = absurd (cc)

  delete_workloads-absent :
      (namespace : String) (names : List String)
      → delete_workloads l status_text c r w namespace names ≡ absent
      → All (λ name. r.workload namespace name ≡ err not_found) names
  unfolding delete_workloads
  delete_workloads-absent namespace [] h = tt
  delete_workloads-absent namespace (name ∷ names) h =
      first (delete_workloads-absent namespace names)
        (delete_one l status_text c r w namespace name) refl h
    where
      first :
          (delete_workloads l status_text c r w namespace names ≡ absent
            → All (λ n. r.workload namespace n ≡ err not_found) names)
          → (gone : Presence) → delete_one l status_text c r w namespace name ≡ gone
          → elim gone [
            | absent ↦ delete_workloads l status_text c r w namespace names
            | present ↦ present
            | unknown e ↦ unknown e
          ]
            ≡ absent
          → All (λ n. r.workload namespace n ≡ err not_found) (name ∷ names)
      first others absent e k = (delete_one-absent namespace name e, others k)
      first others present e k = absurd (cc)
      first others (unknown f) e k = absurd (cc)

  labelled_pods-absent :
      (o : AssignmentObject) (answer : Result (List Pod))
      → labelled_pods l status_text c r w o answer ≡ absent
      → (pods : List Pod) × (answer ≡ ok pods)
        × All (λ p. assignment_uid p.annotations ≢ o.uid) pods
  labelled_pods-absent o (err e) h = absurd (cc)
  labelled_pods-absent o (ok pods) h = (pods, refl, unclaimed pods (ground (arith)))
    where
      unclaimed :
          (list : List Pod)
          → any (claimed l status_text c r w o) list ≡ false
          → All (λ p. assignment_uid p.annotations ≢ o.uid) list
      unclaimed [] k = tt
      unclaimed (p ∷ rest) k = (
        λ e. ground (arith, eq_iff (assignment_uid p.annotations) o.uid, e),
        unclaimed rest (ground (arith)),
      )

  matching-listed :
      (o : AssignmentObject) (list : List Workload)
      → matching_workloads l status_text c r o ≡ ok list
      → (every : List Workload) × (r.workloads o.name ≡ ok every)
        × (list ≡ keep (λ v. assignment_uid v.annotations == o.uid) every)
  unfolding matching_workloads
  matching-listed o list h = elim (Result-cases (r.workloads o.name)) [
    | inr (e, bad) ↦ absurd (ground (arith))
    | inl (every, listed) ↦ (every, listed, ground (arith))
  ]

  workload_names-IsWorkloads :
      (o : AssignmentObject) (names : List String)
      → workload_names l status_text c r w o ≡ ok names
      → IsWorkloads r o names
  unfolding workload_names
  workload_names-IsWorkloads o names h =
      elim (Bool-cases (is_empty (ref_name o.status.workload_ref))) [
        | inr set ↦ subst (IsWorkloads r o) (same_names (rw set at h)) (in_status set)
        | inl blank ↦ elim (Result-cases (matching_workloads l status_text c r o)) [
          | inr (e, bad) ↦ absurd (ground (arith))
          | inl (list, matched) ↦
              let (every, listed, same) = matching-listed o list matched in
              subst (IsWorkloads r o)
                (ap (map (λ w. w.name)) (sym same) ∙ same_names (rw (blank, matched) at h))
                (of_uid every blank listed)
        ]
      ]
    where
      same_names : {a b : List String} → ok a ≡ ok b → a ≡ b
      same_names e = cc

  bound_pod_presence-absent :
      (o : AssignmentObject)
      → bound_pod_presence l status_text c r w o ≡ absent
      → (is_empty (ref_name o.status.pod_ref) ≡ true)
        ⊎ IsOther (ref_uid o.status.pod_ref) (r.pod (ref_name o.status.pod_ref))
  unfolding bound_pod_presence
  bound_pod_presence-absent o h = elim (Bool-cases (is_empty (ref_name o.status.pod_ref))) [
    | inl unbound ↦ inl unbound
    | inr named ↦ inr (other (r.pod (ref_name o.status.pod_ref)) (rw named at h))
  ]
    where
      other :
          (answer : Result Pod)
          → bound_pod_answer l status_text c r w (ref_uid o.status.pod_ref) answer ≡ absent
          → IsOther (ref_uid o.status.pod_ref) answer
      other (ok p) k = λ e. ground (arith, eq_iff p.uid (ref_uid o.status.pod_ref), e)
      other (err e) k = is_not_found-eq e (ground (arith))

  let_go-revoked :
      (o o' : AssignmentObject) (answer : Result (Unit {0})) (release : Release)
      → let_go l status_text c r w o answer ≡ revoked o' release
      → (answer ≡ ok tt)
        × (unguarded l status_text c r w o ≡ o')
        × (release_bundle_if_unused l status_text c r w o ≡ release)
  let_go-revoked o o' (err e) release h = absurd (cc)
  let_go-revoked o o' (ok tt) release h = (refl, ground (arith), ground (arith))

  delete_named-revoked :
      (o o' : AssignmentObject) (answer : Result (List String)) (release : Release)
      → workload_names l status_text c r w o ≡ answer
      → delete_named l status_text c r w o answer ≡ revoked o' release
      → (names : List String) × (pods : List Pod) × IsGone l status_text c r w o names pods
        × (let_go l status_text c r w o (w.assignment (unguarded l status_text c r w o))
            ≡ revoked o' release)
  delete_named-revoked o o' (err e) release named h = absurd (cc)
  delete_named-revoked o o' (ok names) release named h =
      let (deleted, h1) = when_gone-revoked l status_text c r w _ _ o' release h in
      let (unbound, h2) = when_gone-revoked l status_text c r w _ _ o' release h1 in
      let (unlabelled, h3) = when_gone-revoked l status_text c r w _ _ o' release h2 in
      let (pods, listed, unclaimed) = labelled_pods-absent o (r.pods o.name) unlabelled in
      (
        names,
        pods,
        record {
          named = workload_names-IsWorkloads o names named;
          workloads_gone =
              delete_workloads-absent (workload_namespace_of l status_text c r w o) names deleted;
          bound_gone = bound_pod_presence-absent o unbound;
          listed = listed;
          none_claims = unclaimed;
        },
        h3,
      )

  -- An assignment loses its finalizer only once the workload that its status names, or else every
  -- listed workload with its UID, is not found, the Pod that its status names, if any, is not found
  -- or has another UID, no Pod that is listed under its name has its UID, and the write that removes
  -- the finalizer succeeded.
  pub finalize_safe :
      (o o' : AssignmentObject) (release : Release)
      → finalize l status_text c r w o ≡ revoked o' release
      → (names : List String) × (pods : List Pod) × IsGone l status_text c r w o names pods
        × (w.assignment o' ≡ ok tt)
        × (contains o'.finalizers assignment_finalizer ≡ false)
  unfolding finalize
  finalize_safe o o' release h =
      let (names, pods, is_gone, last) =
        delete_named-revoked o o' (workload_names l status_text c r w o) release refl
          (ground (arith)) in
      let (written, same, _) =
        let_go-revoked o o' (w.assignment (unguarded l status_text c r w o)) release last in
      (
        names,
        pods,
        is_gone,
        subst (λ z. w.assignment z ≡ ok tt) same written,
        subst (λ z. contains z.finalizers assignment_finalizer ≡ false) same
            (contains-without assignment_finalizer o.finalizers),
      )

  same_bundle_used-false :
      (o : AssignmentObject) (list : List AssignmentObject)
      → same_bundle_used l status_text c r w o list ≡ ok false
      → any (λ a. not (a.uid == o.uid) && a.bundle_name == o.bundle_name) list ≡ false
  same_bundle_used-false o [] h = refl
  same_bundle_used-false o (a ∷ rest) h = elim (Result-cases (l.assignment_converts a)) [
    | inr (e, bad) ↦ absurd (ground (arith))
    | inl (u, good) ↦ ground (arith, same_bundle_used-false o rest)
  ]

  unprotected-contains :
      (b : BundleObject) (answer : Result BundleObject)
      → release_found l status_text c r w answer ≡ unprotected b
      → contains b.finalizers bundle_finalizer ≡ false
  unprotected-contains b (err e) h = absurd (ground (arith))
  unprotected-contains b (ok found) h =
      elim (Result-cases
        (w.bundle (record found { finalizers = without bundle_finalizer found.finalizers }))) [
          | inr (e, bad) ↦ absurd (ground (arith))
          | inl (u, good) ↦
              let same : record found { finalizers = without bundle_finalizer found.finalizers }
                  ≡ b =
                ground (arith) in
              subst (λ (z : BundleObject). contains z.finalizers bundle_finalizer ≡ false) same
                (contains-without bundle_finalizer found.finalizers)
        ]

  -- A bundle loses its protection only if no other assignment names it in the list that was read
  -- after the assignment lost its finalizer.
  pub release_bundle_safe :
      (o : AssignmentObject) (b : BundleObject)
      → release_bundle_if_unused l status_text c r w o ≡ unprotected b
      → (list : List AssignmentObject) × (r.assignments ≡ ok list)
        × (any (λ a. not (a.uid == o.uid) && a.bundle_name == o.bundle_name) list ≡ false)
        × (contains b.finalizers bundle_finalizer ≡ false)
  unfolding release_bundle_if_unused
  release_bundle_safe o b h = elim (Result-cases (l.assignment_converts o)) [
    | inr (e, bad) ↦ absurd (ground (arith))
    | inl (u, good) ↦ elim (Result-cases r.assignments) [
      | inr (e, bad) ↦ absurd (ground (arith))
      | inl (list, listed) ↦ elim (Result-cases (same_bundle_used l status_text c r w o list)) [
        | inr (e, bad) ↦ absurd (ground (arith))
        | inl (used, answered) ↦
            let unused : used ≡ false = ground (arith) in
            (
              list,
              listed,
              same_bundle_used-false o list (answered ∙ ap ok unused),
              unprotected-contains b (r.bundle o.bundle_name) (ground (arith)),
            )
      ]
    ]
  ]
