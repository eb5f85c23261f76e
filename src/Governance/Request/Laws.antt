-- ===== src/Governance/Request/Laws.antt =====
-- What a valid access request satisfies.
use Prim.Native.String.{len}
use opensandbox_aks_governan.Base.{
  ℤ, pos, negsuc, Bool, true, false, ◌≡◌, ◌↔◌, ◌≤◌, ◌<◌, ◌^◌, ◌||◌, arith, lt_int, times64,
  is_empty, has_char, ok, Result-cases, Bool-cases, inl, inr, eq_iff,
}
use text.Mathlib.TextPositions.{eq_refl}
use opensandbox_aks_governan.Externals.{Externals, Laws}
use opensandbox_aks_governan.Api.{second, SandboxAccessRequestSpec}
use opensandbox_aks_governan.Governance.Target.{Target, normalize_target}
use opensandbox_aks_governan.Governance.Target.Canonical.{normalize_target-coloned}
use opensandbox_aks_governan.Governance.Request.{
  minimum_requested_duration, maximum_requested_duration, contains_control, validate_human_text,
  validate_identity, validate_access_request_spec, same_target,
}

-- The requested target as the code compares it.
abbrev pub target_of : SandboxAccessRequestSpec → Target
target_of spec = record {
  backend = spec.backend;
  method = spec.method;
  host = spec.host;
  path = spec.path;
}

abbrev pub FitsInt32 : ℤ → Type 0
FitsInt32 (pos n) = n < 2 ^ 31
FitsInt32 (negsuc n) = n < 2 ^ 31

-- A whole number of seconds between a minute and eight hours.
abbrev pub IsAllowedDuration : ℤ → Type 0
IsAllowedDuration (pos n) = (60 ≤ n) × (n ≤ 28800)
IsAllowedDuration (negsuc n) = ⊥

-- The conditions on an access request, without the order in which the code tests them.
pub record IsValidRequest (x : Externals) (spec : SandboxAccessRequestSpec) : Type 0 where
  pub name : x.is_dns1123_subdomain spec.assignment_ref.name ≡ true
  pub uid : is_empty spec.assignment_ref.uid ≡ false
  pub pod : is_empty spec.pod_uid ≡ false
  pub revision : (8 ≤ len spec.base_policy_revision) × (len spec.base_policy_revision ≤ 128)
  pub printable : contains_control spec.base_policy_revision ≡ false
  pub canonical :
      normalize_target x spec.backend spec.method spec.host spec.path ≡ ok (target_of spec)
  pub reason : validate_human_text "reason" spec.reason 3 512 ≡ ok tt
  pub requester : validate_identity x spec.requester ≡ ok tt
  pub duration : IsAllowedDuration spec.requested_duration_seconds

abbrev bad_duration : ℤ → Bool
bad_duration n =
    lt_int (times64 n second) (pos minimum_requested_duration)
    || lt_int (pos maximum_requested_duration) (times64 n second)

bad_duration-allowed : (n : ℤ) → FitsInt32 n → bad_duration n ≡ false → IsAllowedDuration n
unfolding times64
bad_duration-allowed (pos n) fits e = ground arith
bad_duration-allowed (negsuc n) fits e = ground arith

allowed-bad_duration : (n : ℤ) → IsAllowedDuration n → bad_duration n ≡ false
unfolding times64
allowed-bad_duration (pos n) h = ground arith
allowed-bad_duration (negsuc n) h = absurd h

same_target-eq :
    (t : Target) (spec : SandboxAccessRequestSpec) → same_target t spec ≡ true → t ≡ target_of spec
same_target-eq t spec h = ground (
  arith,
  eq_iff t.backend spec.backend,
  eq_iff t.method spec.method,
  eq_iff t.host spec.host,
  eq_iff t.path spec.path,
)

same_target_self : (spec : SandboxAccessRequestSpec) → same_target (target_of spec) spec ≡ true
same_target_self spec = simp eq_refl

module _ (x : Externals) (spec : SandboxAccessRequestSpec) where
  sound_canonical :
      validate_access_request_spec x spec ≡ ok tt
      → normalize_target x spec.backend spec.method spec.host spec.path ≡ ok (target_of spec)
  unfolding validate_access_request_spec
  sound_canonical e =
      elim (Result-cases (normalize_target x spec.backend spec.method spec.host spec.path)) [
        | inl (t, normal) ↦ ground (arith, same_target-eq t spec)
        | inr (e', bad) ↦ ground arith
      ]

  sound :
      FitsInt32 spec.requested_duration_seconds
      → validate_access_request_spec x spec ≡ ok tt
      → IsValidRequest x spec
  unfolding validate_access_request_spec
  sound fits e =
      elim (Result-cases (normalize_target x spec.backend spec.method spec.host spec.path)) [
        | inl (t, normal) ↦
            ground
              (arith, same_target-eq t spec, bad_duration-allowed spec.requested_duration_seconds)
        | inr (e', bad) ↦ ground arith
      ]

  complete : IsValidRequest x spec → validate_access_request_spec x spec ≡ ok tt
  unfolding validate_access_request_spec
  complete v = ground (
    arith,
    same_target_self spec,
    allowed-bad_duration spec.requested_duration_seconds v.duration,
  )

  -- An access request whose duration fits an int32 is valid exactly when its names are well formed,
  -- its target is its own normal form, its texts and identity are in order, and its duration is
  -- between 60 and 28800 seconds.
  pub validate_access_request_spec_iff :
      FitsInt32 spec.requested_duration_seconds
      → (validate_access_request_spec x spec ≡ ok tt) ↔ IsValidRequest x spec
  validate_access_request_spec_iff fits = (sound fits, complete)

  -- No access request for an IPv6 host is valid.
  pub valid_request-no_ipv6 :
      Laws x → validate_access_request_spec x spec ≡ ok tt → has_char b':' spec.host ≡ false
  valid_request-no_ipv6 l e = elim (Bool-cases (has_char b':' spec.host)) [
    | inl colon ↦
        let normal = sound_canonical e in
        let refused =
          normalize_target-coloned x l spec.backend spec.method spec.host spec.path (target_of spec)
            normal colon in
        absurd (cc)
    | inr plain ↦ plain
  ]
