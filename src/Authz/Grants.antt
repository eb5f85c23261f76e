-- ===== src/Authz/Grants.antt =====
-- internal/assignment/authz/checker.go: `matchAccessGrantObjects` and `validApproval`.
pub mod Laws
use opensandbox_aks_governan.Base.{
  ℕ, ℤ, pos, String, Bool, true, false, not, ◌&&◌, ◌||◌, Option, none, some, List, [], ◌∷◌, ◌++◌,
  ◌-◌, ◌^◌, ltb, leb, le_int, times64, min, if◌then◌else◌, ◌==◌, string_eq, is_empty, trim_space,
  Error, message, Result, ok, err, is_ok, ◌>>=◌,
}
use opensandbox_aks_governan.Externals.{Externals}
use opensandbox_aks_governan.Api.{
  second, SandboxAccessRequest, SandboxAccessRequestStatus, SandboxAccessRequestSpec,
  approved_state,
}
use opensandbox_aks_governan.Governance.Request.{
  maximum_requested_duration, validate_identity, validate_access_request_spec,
}
use opensandbox_aks_governan.Authz.Decision.{Decision}

-- An object of the index: not an unstructured object at all, one that does not convert to an
-- access request (with its deletion mark), or an access request.
pub data AccessObject : Type 0 where
  unexpected : AccessObject
  unconvertible : Bool → AccessObject
  access : SandboxAccessRequest → AccessObject

-- What one round of the loop does with an object.
pub data Verdict : Type 0 where
  skipped : Verdict
  invalid : Verdict
  matched : String → Verdict
  failed : Error → Verdict

-- `expiresAt.Sub(approvedAt)` for a later `expiresAt`, at most the largest int64.
abbrev pub lifetime : ℕ → ℕ → ℕ
lifetime approved_at expires_at = min (expires_at - approved_at) (2 ^ 63 - 1)

abbrev pub timely : ℤ → ℕ → Option ℕ → Option ℕ → Bool
timely seconds now none expiry = false
timely seconds now (some approved_at) none = false
timely seconds now (some approved_at) (some expires_at) =
    leb approved_at now
    && ltb now expires_at
    && ltb approved_at expires_at
    && le_int (pos (lifetime approved_at expires_at)) (times64 seconds second)
    && leb (lifetime approved_at expires_at) maximum_requested_duration

abbrev pub addressed_to : Decision → SandboxAccessRequest → Bool
addressed_to d r =
    r.status.state == approved_state
    && r.spec.assignment_ref.uid == d.assignment_uid
    && r.spec.assignment_ref.name == d.assignment_name
    && r.spec.pod_uid == d.pod_uid
    && r.spec.base_policy_revision == d.capability_bundle_revision

abbrev pub same_request_target : Decision → SandboxAccessRequestSpec → Bool
same_request_target d spec =
    spec.backend == d.backend
    && spec.method == d.method
    && spec.host == d.host
    && spec.path == d.path

abbrev pub absorb : Verdict → List String → Bool → Result (List String × Bool)
absorb skipped matches invalid_exact = ok (matches, invalid_exact)
absorb invalid matches invalid_exact = ok (matches, true)
absorb (matched name) matches invalid_exact = ok (matches ++ name ∷ [], invalid_exact)
absorb (failed e) matches invalid_exact = err e

-- The name of the request that grants, a reason otherwise, and whether it is granted.
abbrev pub grant_outcome : List String → Bool → String × String × Bool
grant_outcome [] true = ("", "matching access request is malformed, stale, or expired", false)
grant_outcome [] false = ("", "no matching approved access request", false)
grant_outcome (name ∷ []) invalid_exact = (name, "", true)
grant_outcome (name ∷ _ ∷ _) invalid_exact =
    ("", "multiple approved access requests match exact target", false)

module _ (x : Externals) where
  abbrev pub approver_valid : SandboxAccessRequestStatus → Bool
  approver_valid status = elim status.approver [
    | none ↦ false
    | some approver ↦ is_ok (validate_identity x approver)
  ]

  unfoldable pub valid_approval : SandboxAccessRequest → ℕ → Bool
  valid_approval request now =
      approver_valid request.status
      && not (is_empty (trim_space request.status.decision_reason))
      && timely request.spec.requested_duration_seconds now request.status.approved_at
          request.status.expires_at

  unfoldable pub judge_request : Decision → ℕ → SandboxAccessRequest → Verdict
  judge_request d now r =
      if r.deleting
      then skipped
      else if not (addressed_to d r)
      then skipped
      else if not (is_ok (validate_access_request_spec x r.spec))
      then invalid
      else if not (same_request_target d r.spec)
      then skipped
      else if not (valid_approval r now)
      then invalid
      else matched r.name

  abbrev pub judge : Decision → ℕ → AccessObject → Verdict
  judge d now unexpected = failed (message "unexpected access request object")
  judge d now (unconvertible true) = skipped
  judge d now (unconvertible false) = failed (message "convert SandboxAccessRequest")
  judge d now (access r) = judge_request d now r

  -- The loop over the objects, with `matches` and `invalidExact`.
  unfoldable pub collect :
      Decision → ℕ → List AccessObject → List String → Bool → Result (List String × Bool)
  collect d now [] matches invalid_exact = ok (matches, invalid_exact)
  collect d now (o ∷ os) matches invalid_exact =
      absorb (judge d now o) matches invalid_exact >>= λ r. collect d now os r.0 r.1

  unfoldable pub match_access_grant_objects :
      List AccessObject → Decision → ℕ → Result (String × String × Bool)
  unfolding collect
  match_access_grant_objects objects d now =
      collect d now objects [] false >>= λ r. ok (grant_outcome r.0 r.1)
