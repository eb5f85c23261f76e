-- ===== src/Authz/Admit/Laws.antt =====
-- What an admitted request satisfies.
use opensandbox_aks_governan.Base.{
  String, Bool, true, false, ◌≡◌, ◌≢◌, refl, arith, Option, none, some, List, [], ◌∷◌, eq_iff,
  is_empty, string_eq, if◌then◌else◌, Result, ok, Error,
}
use opensandbox_aks_governan.Externals.{Externals}
use opensandbox_aks_governan.Cluster.{
  Pod, ServiceAccount, AssignmentObject, BundleObject, BundleSpec, lookup_text, unset_or_true,
  condition_true, ref_uid, resolved_name, resolved_uid, resolved_revision, eligible_label,
  paused_annotation,
}
use opensandbox_aks_governan.Authz.Decision.{CheckInput, Decision}
use opensandbox_aks_governan.Authz.Tokens.{ReviewedIdentity}
use opensandbox_aks_governan.Authz.Admit.{
  View, pods_with_uid, assignments_of_pod, service_accounts_of, go, stop, only, Admitted,
  source_matches, differs, admit_accounts, admit_account, admit_source, admit_pod, admit_assignment,
  admit_bundle, admit,
}

-- The Pod that an identity names, not being deleted.
pub record IsPodOf (workload_namespace : String) (identity : ReviewedIdentity) (pod : Pod)
    : Type 0 where
  pub live : pod.deleting ≡ false
  pub in_workloads : pod.namespace ≡ workload_namespace
  pub namespace : pod.namespace ≡ identity.namespace
  pub name : pod.name ≡ identity.pod_name
  pub uid : pod.uid ≡ identity.pod_uid
  pub account : pod.service_account_name ≡ identity.service_account

-- An eligible service account of the Pod that mounts no token.
pub record HasAccount (view : View) (pod : Pod) : Type 0 where
  pub account : ServiceAccount
  pub rest : List ServiceAccount
  pub found : service_accounts_of view pod ≡ account ∷ rest
  pub eligible : lookup_text eligible_label account.labels ≡ "true"
  pub no_automount : account.automount ≡ some false

-- The one Pod with the identity's UID, the source of the request, with no token mounted by itself
-- and an eligible service account.
pub record IsAdmittedPod (x : Externals) (workload_namespace : String) (view : View)
    (input : CheckInput) (identity : ReviewedIdentity) (pod : Pod) (source : String) : Type 0 where
  pub only_one : pods_with_uid view identity.pod_uid ≡ pod ∷ []
  pub same : IsPodOf workload_namespace identity pod
  pub address :
      source ≡ (if input.derive_source_from_identity then pod.pod_ip else input.source_address)
  pub from_pod : source_matches x (x.parse_addr source) pod ≡ true
  pub no_automount : pod.automount ≡ some false
  pub service_account : HasAccount view pod

-- The only assignment bound to the Pod, live, ready and not paused.
pub record IsAdmittedAssignment (view : View) (pod_uid : String) (a : AssignmentObject)
    : Type 0 where
  pub only_one : assignments_of_pod view pod_uid ≡ a ∷ []
  pub live : a.deleting ≡ false
  pub unpaused : lookup_text paused_annotation a.annotations ≢ "true"
  pub ready : condition_true "Ready" a.status.conditions ≡ true
  pub bound : ref_uid a.status.pod_ref ≡ pod_uid

-- The bundle that the assignment names and was resolved to, live and with the policy that hashes to
-- the resolved revision.
pub record IsAdmittedBundle (policy_revision : BundleSpec → Result String) (a : AssignmentObject)
    (b : BundleObject) (revision : String) : Type 0 where
  pub named : a.bundle_name ≡ resolved_name a.status.resolved
  pub filled : is_empty (resolved_name a.status.resolved) ≡ false
  pub live : b.deleting ≡ false
  pub uid : b.uid ≡ resolved_uid a.status.resolved
  pub hashed : policy_revision b.spec ≡ ok revision
  pub unchanged : revision ≡ resolved_revision a.status.resolved

pub record IsAdmitted (policy_revision : BundleSpec → Result String) (x : Externals)
    (workload_namespace : String) (view : View) (input : CheckInput) (identity : ReviewedIdentity)
    (a : Admitted) : Type 0 where
  pub pod : IsAdmittedPod x workload_namespace view input identity a.pod a.effective_source
  pub assignment : IsAdmittedAssignment view identity.pod_uid a.assignment
  pub bundle : IsAdmittedBundle policy_revision a.assignment a.bundle a.revision

only-go {ℓ} : {A : Type ℓ} (l : List A) (text : String) (a : A) → only l text ≡ go a → l ≡ a ∷ []
only-go [] text a e = cc
only-go (b ∷ []) text a e = cc
only-go (b ∷ c ∷ l) text a e = cc

unset_or_true-false : (b : Option Bool) → unset_or_true b ≡ false → b ≡ some false
unset_or_true-false none h = cc
unset_or_true-false (some true) h = cc
unset_or_true-false (some false) h = refl

admit_assignment_sound :
    (view : View) (pod_uid : String) (a : AssignmentObject)
    → admit_assignment view pod_uid ≡ go a
    → IsAdmittedAssignment view pod_uid a
unfolding admit_assignment
admit_assignment_sound view pod_uid a e = ground (
  arith,
  eq_iff (lookup_text paused_annotation a.annotations) "true",
  eq_iff (ref_uid a.status.pod_ref) pod_uid,
)

admit_bundle_sound :
    (policy_revision : BundleSpec → Result String) (view : View) (a : AssignmentObject)
    (b : BundleObject) (revision : String)
    → admit_bundle policy_revision view a ≡ go (b, revision)
    → IsAdmittedBundle policy_revision a b revision
unfolding admit_bundle
admit_bundle_sound policy_revision view a b revision e = ground (
  arith,
  eq_iff a.bundle_name (resolved_name a.status.resolved),
  eq_iff b.uid (resolved_uid a.status.resolved),
  eq_iff revision (resolved_revision a.status.resolved),
)

differs-false :
    (workload_namespace : String) (identity : ReviewedIdentity) (pod : Pod)
    → differs workload_namespace identity pod ≡ false
    → IsPodOf workload_namespace identity pod
unfolding differs
differs-false workload_namespace identity pod h = ground (
  arith,
  eq_iff pod.namespace workload_namespace,
  eq_iff pod.namespace identity.namespace,
  eq_iff pod.name identity.pod_name,
  eq_iff pod.uid identity.pod_uid,
  eq_iff pod.service_account_name identity.service_account,
)

admit_accounts_sound :
    (view : View) (pod : Pod) (accounts : List ServiceAccount)
    → service_accounts_of view pod ≡ accounts
    → admit_accounts accounts ≡ go tt
    → HasAccount view pod
admit_accounts_sound view pod [] found e = cc
admit_accounts_sound view pod (account ∷ rest) found e = record {
  account = account;
  rest = rest;
  found = found;
  eligible = ground (arith, eq_iff (lookup_text eligible_label account.labels) "true");
  no_automount = unset_or_true-false account.automount (ground arith);
}

admit_account_sound :
    (view : View) (pod : Pod) → admit_account view pod ≡ go tt → HasAccount view pod
unfolding admit_account
admit_account_sound view pod e = admit_accounts_sound view pod (service_accounts_of view pod) refl e

admit_source_sound :
    (x : Externals) (input : CheckInput) (pod : Pod) (source : String)
    → admit_source x input pod ≡ go source
    → (source ≡ (if input.derive_source_from_identity then pod.pod_ip else input.source_address))
      × (source_matches x (x.parse_addr source) pod ≡ true)
      × (pod.automount ≡ some false)
unfolding admit_source
admit_source_sound x input pod source e = ground (arith, unset_or_true-false pod.automount)

module _ (x : Externals) (workload_namespace : String) (view : View) (input : CheckInput)
    (identity : ReviewedIdentity) where
  admit_pod-inv :
      (pod : Pod) (source : String)
      → admit_pod x workload_namespace view input identity ≡ go (pod, source)
      → (pods_with_uid view identity.pod_uid ≡ pod ∷ [])
        × (differs workload_namespace identity pod ≡ false)
        × (admit_source x input pod ≡ go source)
        × (admit_account view pod ≡ go tt)
  unfolding admit_pod
  admit_pod-inv pod source e = ground arith

  admit_pod_sound :
      (pod : Pod) (source : String)
      → admit_pod x workload_namespace view input identity ≡ go (pod, source)
      → IsAdmittedPod x workload_namespace view input identity pod source
  admit_pod_sound pod source e =
      let (one, same, from, account) = admit_pod-inv pod source e in
      let (address, matches, automount) = admit_source_sound x input pod source from in
      record {
        only_one = one;
        same = differs-false workload_namespace identity pod same;
        address = address;
        from_pod = matches;
        no_automount = automount;
        service_account = admit_account_sound view pod account;
      }

  admit-inv :
      (policy_revision : BundleSpec → Result String) (a : Admitted)
      → admit policy_revision x workload_namespace view input identity ≡ go a
      → (admit_pod x workload_namespace view input identity ≡ go (a.pod, a.effective_source))
        × (admit_assignment view identity.pod_uid ≡ go a.assignment)
        × (admit_bundle policy_revision view a.assignment ≡ go (a.bundle, a.revision))
  unfolding admit
  admit-inv policy_revision a e = ground arith

-- A request is admitted only for the one live Pod of its identity, from that Pod's address, with no
-- mounted token and an eligible service account, whose one assignment is live, ready and not paused,
-- and names a live bundle whose identity and policy are those that the assignment was resolved to.
pub admit_sound :
    (policy_revision : BundleSpec → Result String) (x : Externals) (workload_namespace : String)
    (view : View) (input : CheckInput) (identity : ReviewedIdentity) (a : Admitted)
    → admit policy_revision x workload_namespace view input identity ≡ go a
    → IsAdmitted policy_revision x workload_namespace view input identity a
admit_sound policy_revision x workload_namespace view input identity a e =
    let (pod, assignment, bundle) =
      admit-inv x workload_namespace view input identity policy_revision a e in
    record {
      pod = admit_pod_sound x workload_namespace view input identity a.pod a.effective_source pod;
      assignment = admit_assignment_sound view identity.pod_uid a.assignment assignment;
      bundle = admit_bundle_sound policy_revision view a.assignment a.bundle a.revision bundle;
    }

-- A request that is not admitted is denied.
admit_pod-stop :
    (x : Externals) (workload_namespace : String) (view : View) (input : CheckInput)
    (identity : ReviewedIdentity) (d : Decision) (e : Option Error)
    → admit_pod x workload_namespace view input identity ≡ stop d e
    → d.allow ≡ false
unfolding admit_pod admit_source admit_account
admit_pod-stop x workload_namespace view input identity d e h = ground arith

admit_assignment-stop :
    (view : View) (pod_uid : String) (d : Decision) (e : Option Error)
    → admit_assignment view pod_uid ≡ stop d e
    → d.allow ≡ false
unfolding admit_assignment
admit_assignment-stop view pod_uid d e h = ground arith

admit_bundle-stop :
    (policy_revision : BundleSpec → Result String) (view : View) (a : AssignmentObject)
    (d : Decision) (e : Option Error)
    → admit_bundle policy_revision view a ≡ stop d e
    → d.allow ≡ false
unfolding admit_bundle
admit_bundle-stop policy_revision view a d e h = ground arith

pub admit-stop :
    (policy_revision : BundleSpec → Result String) (x : Externals) (workload_namespace : String)
    (view : View) (input : CheckInput) (identity : ReviewedIdentity) (d : Decision)
    (e : Option Error)
    → admit policy_revision x workload_namespace view input identity ≡ stop d e
    → d.allow ≡ false
unfolding admit
admit-stop policy_revision x workload_namespace view input identity d e h = grind (
  arith,
  admit_pod-stop x workload_namespace view input identity,
  admit_assignment-stop view identity.pod_uid,
  admit_bundle-stop policy_revision view,
)
