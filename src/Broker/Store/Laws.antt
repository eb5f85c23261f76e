-- ===== src/Broker/Store/Laws.antt =====
-- Revocations that were recorded, and bindings that are in force.
use opensandbox_aks_governan.Base.{
  ℕ, String, true, false, some, ◌≡◌, ◌≢◌, refl, ap, subst, ◌<◌, ◌%◌, arith, string_eq, Error,
  already_exists, message, Result, ok, err, eq_iff, not_found,
}
use opensandbox_aks_governan.Api.{second}
use opensandbox_aks_governan.Cluster.{
  AssignmentObject, Pod, paused_annotation, sandbox_id_annotation, lookup_text, condition_true,
  ref_uid, ref_name, resolved_name, resolved_revision,
}
use opensandbox_aks_governan.Broker.Claims.{GrantClaims}
use opensandbox_aks_governan.Broker.Store.{
  Gets, validate_grant, check_assignment, check_pod, pod_namespace, stale_assignment,
  changed_incarnation, stale_pod, Revocation, RevocationApi, ApiLaws, object_name, revocation,
  revoke_grant, is_revoked, create_converted, created,
}

-- The sandbox, the Pod and the policy that a grant was issued for are those of the cluster.
pub record IsBound (g : Gets) (workload : String) (c : GrantClaims) (a : AssignmentObject) (p : Pod)
    : Type 0 where
  pub assignment_found : g.assignment c.assignment_name ≡ ok a
  pub assignment_kept : a.deleting ≡ false
  pub same_assignment : a.uid ≡ c.assignment_uid
  pub running : lookup_text paused_annotation a.annotations ≢ "true"
  pub same_sandbox : lookup_text sandbox_id_annotation a.annotations ≡ c.sandbox_id
  pub ready : condition_true "Ready" a.status.conditions ≡ true
  pub same_pod : ref_uid a.status.pod_ref ≡ c.pod_uid
  pub same_bundle : resolved_name a.status.resolved ≡ c.capability_bundle_name
  pub same_revision : resolved_revision a.status.resolved ≡ c.capability_bundle_revision
  pub pod_found : g.pod (pod_namespace workload a) (ref_name a.status.pod_ref) ≡ ok p
  pub pod_kept : p.deleting ≡ false
  pub pod_uid : p.uid ≡ c.pod_uid
  pub not_failed : p.phase ≢ "Failed"

not_stale :
    (a : AssignmentObject) (c : GrantClaims)
    → stale_assignment a c ≡ false
    → (a.deleting ≡ false)
      × (a.uid ≡ c.assignment_uid)
      × (lookup_text paused_annotation a.annotations ≢ "true")
      × (lookup_text sandbox_id_annotation a.annotations ≡ c.sandbox_id)
      × (condition_true "Ready" a.status.conditions ≡ true)
not_stale a c h = ground (
  arith,
  eq_iff a.uid c.assignment_uid,
  eq_iff (lookup_text paused_annotation a.annotations) "true",
  eq_iff (lookup_text sandbox_id_annotation a.annotations) c.sandbox_id,
)

same_incarnation :
    (a : AssignmentObject) (c : GrantClaims)
    → changed_incarnation a c ≡ false
    → (ref_uid a.status.pod_ref ≡ c.pod_uid)
      × (resolved_name a.status.resolved ≡ c.capability_bundle_name)
      × (resolved_revision a.status.resolved ≡ c.capability_bundle_revision)
same_incarnation a c h = ground (
  arith,
  eq_iff (ref_uid a.status.pod_ref) c.pod_uid,
  eq_iff (resolved_name a.status.resolved) c.capability_bundle_name,
  eq_iff (resolved_revision a.status.resolved) c.capability_bundle_revision,
)

live_pod :
    (p : Pod) (c : GrantClaims)
    → stale_pod p c ≡ false
    → (p.deleting ≡ false) × (p.uid ≡ c.pod_uid) × (p.phase ≢ "Failed")
live_pod p c h = ground (arith, eq_iff p.uid c.pod_uid, eq_iff p.phase "Failed")

check_pod-ok :
    (c : GrantClaims) (answer : Result Pod)
    → check_pod c answer ≡ ok tt
    → (p : Pod) × (answer ≡ ok p) × (stale_pod p c ≡ false)
check_pod-ok c (err e) h = absurd (cc)
check_pod-ok c (ok p) h = (p, refl, ground (arith))

check_assignment-ok :
    (g : Gets) (workload : String) (c : GrantClaims) (answer : Result AssignmentObject)
    → check_assignment g workload c answer ≡ ok tt
    → (a : AssignmentObject) × (answer ≡ ok a)
      × (stale_assignment a c ≡ false)
      × (changed_incarnation a c ≡ false)
      × (check_pod c (g.pod (pod_namespace workload a) (ref_name a.status.pod_ref)) ≡ ok tt)
check_assignment-ok g workload c (err e) h = absurd (cc)
check_assignment-ok g workload c (ok a) h =
    (a, refl, ground (arith), ground (arith), ground (arith))

-- A grant is valid only while its assignment is ready, neither deleted nor paused, and still has the
-- sandbox, the Pod, the bundle and the revision that the claims name, and that Pod is there, not
-- deleted and not failed.
pub validate_grant_sound :
    (g : Gets) (workload : String) (c : GrantClaims)
    → validate_grant g workload c ≡ ok tt
    → (a : AssignmentObject) × (p : Pod) × IsBound g workload c a p
unfolding validate_grant
validate_grant_sound g workload c h =
    let (a, found, live, kept, checked) =
      check_assignment-ok g workload c (g.assignment c.assignment_name) h in
    let (p, there, fresh) =
      check_pod-ok c (g.pod (pod_namespace workload a) (ref_name a.status.pod_ref)) checked in
    let (undeleted, uid, running, sandbox, ready) = not_stale a c live in
    let (pod_uid, bundle, revision) = same_incarnation a c kept in
    let (pod_kept, uid_of_pod, working) = live_pod p c fresh in
    (
      a,
      p,
      record {
        assignment_found = found;
        assignment_kept = undeleted;
        same_assignment = uid;
        running = running;
        same_sandbox = sandbox;
        ready = ready;
        same_pod = pod_uid;
        same_bundle = bundle;
        same_revision = revision;
        pod_found = there;
        pod_kept = pod_kept;
        pod_uid = uid_of_pod;
        not_failed = working;
      },
    )

module _ (api : RevocationApi) (l : ApiLaws api) (c : GrantClaims) (t : ℕ) where
  created-get :
      (r : Revocation) (s s' : api.State)
      → created api (api.create (object_name c.id) r s) ≡ (s', ok tt)
      → (r.expires_at ≡ api.format_time t)
      → ((old : Revocation)
          → api.get (object_name c.id) s ≡ ok old
          → old.expires_at ≡ api.format_time t)
      → (stored : Revocation) × (api.get (object_name c.id) s' ≡ ok stored)
        × (stored.expires_at ≡ api.format_time t)
  created-get r s s' h same kept = settle (api.create (object_name c.id) r s) refl h
    where
      settle :
          (outcome : api.State × Result (Unit {0}))
          → api.create (object_name c.id) r s ≡ outcome
          → created api outcome ≡ (s', ok tt)
          → (stored : Revocation) × (api.get (object_name c.id) s' ≡ ok stored)
            × (stored.expires_at ≡ api.format_time t)
      settle (s2, ok tt) e k = (
        r,
        subst (λ w. api.get (object_name c.id) w ≡ ok r) (ap (λ q. q.0) k)
            (l.get-create (object_name c.id) r s s2 e),
        same,
      )
      settle (s2, err already_exists) e k =
          let (old, before, after) = l.get-exists (object_name c.id) r s s2 e in
          (
            old,
            subst (λ w. api.get (object_name c.id) w ≡ ok old) (ap (λ q. q.0) k) after,
            kept old before,
          )
      settle (s2, err not_found) e k = absurd (cc)
      settle (s2, err Error.conflict) e k = absurd (cc)
      settle (s2, err Error.canceled) e k = absurd (cc)
      settle (s2, err (message text)) e k = absurd (cc)
      settle (s2, err (Error.wrapped text f)) e k = absurd (cc)

  converted-get :
      (s s' : api.State) (converted : Result Revocation)
      → api.convert (revocation api c t) ≡ converted
      → create_converted api (object_name c.id) s converted ≡ (s', ok tt)
      → ((old : Revocation)
          → api.get (object_name c.id) s ≡ ok old
          → old.expires_at ≡ api.format_time t)
      → (stored : Revocation) × (api.get (object_name c.id) s' ≡ ok stored)
        × (stored.expires_at ≡ api.format_time t)
  converted-get s s' (err e) h k kept = absurd (cc)
  converted-get s s' (ok r) h k kept =
      created-get r s s' k (ap (λ v. v.expires_at) (l.convert_same (revocation api c t) r h)) kept

  -- Once a revocation of a grant has been recorded, or was there before with the grant's end, the
  -- grant is reported as revoked at every time before its end, and the report changes nothing.
  pub revoke_grant-is_revoked :
      (s s' : api.State) (now : ℕ)
      → c.expires_at ≡ some t
      → t % second ≡ 0
      → ((old : Revocation)
          → api.get (object_name c.id) s ≡ ok old
          → old.expires_at ≡ api.format_time t)
      → revoke_grant api c s ≡ some (s', ok tt)
      → now < t
      → is_revoked api now c.id s' ≡ (s', ok true)
  unfolding revoke_grant is_revoked
  revoke_grant-is_revoked s s' now ends whole kept h early =
      let (stored, there, until) =
        converted-get s s' (api.convert (revocation api c t)) refl (ground (arith)) kept in
      rw (there, until, l.parse_format t whole) (ground (arith))
