-- ===== src/Broker/Store.antt =====
-- internal/assignment/credentialbroker/kubernetes.go: the validator of a grant's binding and the
-- store of revocations.
pub mod Laws
use Prim.Native.String.{String, ◌++◌ as text_append}
use opensandbox_aks_governan.Base.{
  ℕ, Bool, true, false, not, ◌&&◌, ◌||◌, Option, none, some, ◌≡◌, ◌%◌, ltb, if◌then◌else◌, ◌==◌,
  string_eq, Error, not_found, already_exists, message, Result, ok, err, is_empty,
}
use opensandbox_aks_governan.Api.{second, AssignmentReference}
use opensandbox_aks_governan.Cluster.{
  AssignmentObject, AssignmentStatus, Pod, ObjectReference, ResolvedBundle, paused_annotation,
  sandbox_id_annotation, lookup_text, condition_true, ref_name, ref_namespace, ref_uid,
  resolved_name, resolved_revision,
}
use opensandbox_aks_governan.Broker.Claims.{GrantClaims}

-- What the API server answers to the two gets of `ValidateGrant`, by name and by namespace and name.
pub record Gets : Type 0 where
  pub assignment : String → Result AssignmentObject
  pub pod : String → String → Result Pod

abbrev pub stale_assignment : AssignmentObject → GrantClaims → Bool
stale_assignment a c =
    a.deleting
    || not (a.uid == c.assignment_uid)
    || lookup_text paused_annotation a.annotations == "true"
    || not (lookup_text sandbox_id_annotation a.annotations == c.sandbox_id)
    || not (condition_true "Ready" a.status.conditions)

abbrev pub changed_incarnation : AssignmentObject → GrantClaims → Bool
changed_incarnation a c =
    not (ref_uid a.status.pod_ref == c.pod_uid)
    || not (resolved_name a.status.resolved == c.capability_bundle_name)
    || not (resolved_revision a.status.resolved == c.capability_bundle_revision)

abbrev pub stale_pod : Pod → GrantClaims → Bool
stale_pod p c = p.deleting || not (p.uid == c.pod_uid) || p.phase == "Failed"

abbrev pub pod_namespace : String → AssignmentObject → String
pod_namespace workload a =
    if is_empty (ref_namespace a.status.pod_ref) then workload else ref_namespace a.status.pod_ref

abbrev pub check_pod : GrantClaims → Result Pod → Result (Unit {0})
check_pod c (err e) = err e
check_pod c (ok p) = if stale_pod p c then err (message "sandbox Pod binding is stale") else ok tt

abbrev pub check_assignment :
    Gets → String → GrantClaims → Result AssignmentObject → Result (Unit {0})
check_assignment g workload c (err e) = err e
check_assignment g workload c (ok a) =
    let pod_checked = check_pod c (g.pod (pod_namespace workload a) (ref_name a.status.pod_ref)) in
    if stale_assignment a c
    then err (message "assignment binding is stale")
    else if changed_incarnation a c
    then err (message "assignment policy or Pod incarnation changed")
    else pod_checked

unfoldable pub validate_grant : Gets → String → GrantClaims → Result (Unit {0})
validate_grant g workload c = check_assignment g workload c (g.assignment c.assignment_name)

pub record Revocation : Type 0 where
  pub grant_id : String
  pub expires_at : String
  pub assignment_ref : AssignmentReference
  pub pod_uid : String
  pub sandbox_id : String

-- The API server's objects of one kind in one namespace, the converter to unstructured objects, and
-- times as RFC 3339 texts.
pub record RevocationApi : Type 1 where
  pub State : Type 0
  pub get : String → State → Result Revocation
  pub create : String → Revocation → State → State × Result (Unit {0})
  pub delete : String → State → State × Result (Unit {0})
  pub convert : Revocation → Result Revocation
  pub format_time : ℕ → String
  pub parse_time : String → Result ℕ

-- Documented behaviour: an object that was created is there, one that could not be created because
-- it exists is there as it was, conversion keeps an object, and a whole second prints to a text
-- that parses to it.
pub record ApiLaws (api : RevocationApi) : Type 0 where
  pub get-create :
      (name : String) (r : Revocation) (s s' : api.State)
      → api.create name r s ≡ (s', ok tt)
      → api.get name s' ≡ ok r
  pub get-exists :
      (name : String) (r : Revocation) (s s' : api.State)
      → api.create name r s ≡ (s', err already_exists)
      → (old : Revocation) × (api.get name s ≡ ok old) × (api.get name s' ≡ ok old)
  pub convert_same : (r r' : Revocation) → api.convert r ≡ ok r' → r' ≡ r
  pub parse_format : (t : ℕ) → t % second ≡ 0 → api.parse_time (api.format_time t) ≡ ok t

abbrev pub object_name : String → String
object_name id = text_append "grant-" id

abbrev pub ignore_exists : Result (Unit {0}) → Result (Unit {0})
ignore_exists (ok u) = ok u
ignore_exists (err not_found) = err not_found
ignore_exists (err already_exists) = ok tt
ignore_exists (err Error.conflict) = err Error.conflict
ignore_exists (err Error.canceled) = err Error.canceled
ignore_exists (err (message text)) = err (message text)
ignore_exists (err (Error.wrapped text e)) = err (Error.wrapped text e)

module _ (api : RevocationApi) where
  abbrev pub revocation : GrantClaims → ℕ → Revocation
  revocation c t = record {
    grant_id = c.id;
    expires_at = api.format_time t;
    assignment_ref = record { name = c.assignment_name; uid = c.assignment_uid };
    pod_uid = c.pod_uid;
    sandbox_id = c.sandbox_id;
  }

  abbrev pub created : api.State × Result (Unit {0}) → api.State × Result (Unit {0})
  created (s, answer) = (s, ignore_exists answer)

  abbrev pub create_converted :
      String → api.State → Result Revocation → api.State × Result (Unit {0})
  create_converted name s (err e) = (s, err e)
  create_converted name s (ok r) = created (api.create name r s)

  -- None where the claims have no end of life: the code reads it through a nil pointer.
  unfoldable pub revoke_grant : GrantClaims → api.State → Option (api.State × Result (Unit {0}))
  revoke_grant c s = elim c.expires_at [
    | none ↦ none
    | some t ↦ some (create_converted (object_name c.id) s (api.convert (revocation c t)))
  ]

  abbrev pub expired_answer : api.State × Result (Unit {0}) → api.State × Result Bool
  expired_answer (s, ok _) = (s, ok false)
  expired_answer (s, err not_found) = (s, ok false)
  expired_answer (s, err already_exists) = (s, err already_exists)
  expired_answer (s, err Error.conflict) = (s, err Error.conflict)
  expired_answer (s, err Error.canceled) = (s, err Error.canceled)
  expired_answer (s, err (message text)) = (s, err (message text))
  expired_answer (s, err (Error.wrapped text e)) = (s, err (Error.wrapped text e))

  abbrev pub stored_answer : ℕ → String → api.State → Result ℕ → api.State × Result Bool
  stored_answer now name s (err e) = (s, err e)
  stored_answer now name s (ok expiry) =
      let removed = expired_answer (api.delete name s) in
      if ltb now expiry then (s, ok true) else removed

  abbrev pub found_answer : ℕ → String → api.State → Result Revocation → api.State × Result Bool
  found_answer now name s (ok r) = stored_answer now name s (api.parse_time r.expires_at)
  found_answer now name s (err not_found) = (s, ok false)
  found_answer now name s (err already_exists) = (s, err already_exists)
  found_answer now name s (err Error.conflict) = (s, err Error.conflict)
  found_answer now name s (err Error.canceled) = (s, err Error.canceled)
  found_answer now name s (err (message text)) = (s, err (message text))
  found_answer now name s (err (Error.wrapped text e)) = (s, err (Error.wrapped text e))

  unfoldable pub is_revoked : ℕ → String → api.State → api.State × Result Bool
  is_revoked now id s = found_answer now (object_name id) s (api.get (object_name id) s)
