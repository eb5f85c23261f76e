-- ===== src/Examples/Broker.antt =====
-- Credentials issued, verified and revoked.
use opensandbox_aks_governan.Base.{
  ℕ, pos, String, true, false, none, some, List, [], ◌∷◌, ◌≡◌, refl, not_found, already_exists,
  Result, ok, err, trim_space, find_key, put_key, delete_key, find_key-put_key, zero, suc, ap,
  subst, eq_iff, ◌/◌, Option-cases, inl, inr, times64, ◌*◌, arith,
}
use opensandbox_aks_governan.Api.{second}
use opensandbox_aks_governan.Authz.Decision.{Decision, empty_decision}
use opensandbox_aks_governan.Governance.Target.{
  Target, normalize_target, normalize_host, host_name, address_or_labels, strip_brackets, trim_dot,
  host_label, method_pattern, normalize_path, splits_host_port,
}
use opensandbox_aks_governan.Broker.Claims.{
  GrantClaims, IssueRequest, Config, valid_task_id, key_for, complete, in_scope,
}
use opensandbox_aks_governan.Broker.Handlers.{
  done, refused, Services, Issued, issue, verify, claims_of, record_event, bearer, bearer_header,
  parse_authorization,
}
use opensandbox_aks_governan.Broker.Handlers.Issues.{IsCredential, issue-IsCredential}
use opensandbox_aks_governan.Broker.Handlers.Laws.{
  IsUse, IsNamed, verify_sound, issue-verify, revoke-verify,
}
use opensandbox_aks_governan.Broker.Store.{
  Revocation, RevocationApi, ApiLaws, object_name, revoke_grant, is_revoked, Gets, validate_grant,
}
use opensandbox_aks_governan.Broker.Store.Laws.{revoke_grant-is_revoked}
use opensandbox_aks_governan.Examples.Sample.{sample, sample_laws}
use opensandbox_aks_governan.Examples.Authorization.{assigned, pod}
use opensandbox_aks_governan.Examples.Jwt.{jwt, jwt_laws, granted, key, names_match, rest_match}

abbrev config : Config
config = record {
  signing_key = key;
  signing_key_id = "k1";
  previous_signing_keys = [];
  issuer = "broker";
  audience = "upstream";
}

-- The same key, retired.
abbrev rotated : Config
rotated = record config {
  signing_key = "fedcba9876543210fedcba9876543210";
  signing_key_id = "k2";
  previous_signing_keys = ("k1", key) ∷ [];
}

abbrev decided : Decision
decided = record empty_decision {
  allow = true;
  assignment_name = "assignment-a";
  assignment_uid = "uid-a";
  sandbox_id = "sandbox-a";
  pod_uid = "pod-a";
  capability_bundle_name = "bundle-a";
  capability_bundle_revision = "r1";
}

abbrev services : Services
services = record {
  check = λ i. ok decided;
  validate_grant = λ c. ok tt;
  is_revoked = λ id. ok false;
  revoke = λ c. ok tt;
  sink = some (λ now action c. ok tt);
}

abbrev request : IssueRequest
request = record {
  identity_token = "token";
  backend = "source-control";
  method = "get";
  host = "github.com.";
  path = "/org/repo";
  task_id = "task-1";
  ttl_seconds = pos 60;
}

abbrev issued : Issued
issued = record { credential = "signed"; claims = granted; expires_at = 160000000000 }

issued_run :
    issue sample jwt config services 100000000000 "grant-1" 100000000001 (ok request) ≡ done issued
unfolding names_match rest_match issue normalize_target normalize_host host_name address_or_labels
    strip_brackets trim_dot host_label method_pattern normalize_path splits_host_port trim_space
    valid_task_id claims_of record_event times64
issued_run = refl

issue-IsCredential_example :
    (t : Target) × (d : Decision) × (lifetime : ℕ) × IsCredential sample jwt config services
      100000000000 "grant-1" 100000000001 request t d lifetime issued
issue-IsCredential_example =
    issue-IsCredential sample jwt config services 100000000000 "grant-1" 100000000001 request issued
      issued_run

verify_run :
    verify sample jwt rotated services 150000000000 150000000001 (bearer_header "signed")
    ≡ done (granted, 160000000000)
unfolding verify parse_authorization bearer key_for complete in_scope normalize_target
    normalize_host host_name address_or_labels strip_brackets trim_dot host_label method_pattern
    normalize_path splits_host_port trim_space valid_task_id record_event
verify_run = refl

named : (t : Target) (d : Decision) → ok decided ≡ ok d → IsNamed d
named t d h =
    subst (IsNamed) (same_decision h) (record { assignment = refl; pod = refl; revision = refl })
  where
    same_decision : {a b : Decision} → ok a ≡ ok b → a ≡ b
    same_decision e = cc

issue-verify_example :
    verify sample jwt rotated services 150000000000 150000000001 (bearer_header "signed")
    ≡ done (granted, 160000000000)
unfolding key_for complete valid_task_id record_event
issue-verify_example =
    issue-verify sample sample_laws jwt jwt_laws rotated services config services 100000000000
      150000000000 100000000001 150000000001 "grant-1" request issued 160000000000 issued_run refl
      refl refl refl named refl refl (omega (arith)) (omega (arith)) refl refl refl

verify_sound_example :
    IsUse sample jwt rotated services 150000000000 150000000001
      (bearer_header "signed")
      granted
      160000000000
verify_sound_example =
    verify_sound sample sample_laws jwt jwt_laws rotated services 150000000000 150000000001
      (bearer_header "signed") granted 160000000000 verify_run

-- A store of revocations: a list of objects, and a time as a text with one character per second.
abbrev tally : ℕ → String
tally zero = ""
tally (suc n) = String.◌∷◌ "|" (tally n)

abbrev count : String → ℕ
count String.[] = 0
count (String.◌∷◌ c s) = suc (count s)

count-tally : (n : ℕ) → count (tally n) ≡ n
count-tally zero = refl
count-tally (suc n) = ap suc (count-tally n)

abbrev lookup : String → List (String × Revocation) → Result Revocation
lookup name s = elim (find_key name s) [ none ↦ err not_found | some r ↦ ok r ]

abbrev insert :
    String
    → Revocation
    → List (String × Revocation)
    → List (String × Revocation) × Result (Unit {0})
insert name r s = elim (find_key name s) [
  | none ↦ (put_key name r s, ok tt)
  | some old ↦ (s, err already_exists)
]

abbrev store : RevocationApi
store = record {
  State = List (String × Revocation);
  get = lookup;
  create = insert;
  delete = λ name s. (delete_key name s, ok tt);
  convert = λ r. ok r;
  format_time = λ t. tally (t / second);
  parse_time = λ s. ok (count s * second);
}

inserted :
    (name : String) (r : Revocation) (s s' : List (String × Revocation))
    → insert name r s ≡ (s', ok tt)
    → put_key name r s ≡ s'
inserted name r s s' h = elim (Option-cases (find_key name s)) [
  | inl new ↦ ground (arith)
  | inr (old, there) ↦ absurd (ground (arith))
]

existing :
    (name : String) (r : Revocation) (s s' : List (String × Revocation))
    → insert name r s ≡ (s', err already_exists)
    → (old : Revocation) × (lookup name s ≡ ok old) × (lookup name s' ≡ ok old)
existing name r s s' h = elim (Option-cases (find_key name s)) [
  | inl new ↦ absurd (ground (arith))
  | inr (old, there) ↦
      let found : lookup name s ≡ ok old = rw (lookup, there) refl in
      let same : s ≡ s' = ground (arith) in
      (old, found, subst (λ w. lookup name w ≡ ok old) same found)
]

store_laws : ApiLaws store
store_laws = record {
  get-create = λ name r s s' h.
      subst (λ w. lookup name w ≡ ok r) (inserted name r s s' h)
        (rw (lookup, find_key-put_key name name r s) (ground (arith, eq_iff name name)));
  get-exists = λ name r s s' h. existing name r s s' h;
  convert_same = λ r r' h. ground (arith);
  parse_format = λ t h. rw (count-tally (t / second)) (ap ok (omega (arith)));
}

abbrev revoked : List (String × Revocation)
revoked =
    (
      object_name "grant-1",
      record {
        grant_id = "grant-1";
        expires_at = tally 160;
        assignment_ref = record { name = "assignment-a"; uid = "uid-a" };
        pod_uid = "pod-a";
        sandbox_id = "sandbox-a";
      },
    )
    ∷ []

revoked_once : revoke_grant store granted [] ≡ some (revoked, ok tt)
unfolding revoke_grant
revoked_once = refl

abbrev asking : Services
asking = record services { is_revoked = λ id. (is_revoked store 150000000000 id revoked).1 }

parsed_run :
    parse_authorization sample jwt config 150000000000 (bearer_header "signed") ≡ done granted
unfolding parse_authorization bearer key_for complete in_scope normalize_target normalize_host
    host_name address_or_labels strip_brackets trim_dot host_label method_pattern normalize_path
    splits_host_port trim_space valid_task_id
parsed_run = refl

revoke-verify_example :
    verify sample jwt config asking 150000000000 150000000001 (bearer_header "signed")
    ≡ refused 401 "credential is revoked"
revoke-verify_example =
    revoke-verify sample jwt config asking store store_laws granted 160000000000 150000000000
      150000000000 150000000001 [] revoked (bearer_header "signed") refl refl
      (λ old found. absurd (cc)) revoked_once (omega (arith)) refl parsed_run

revoke_again_test : is_revoked store 150000000000 "grant-1" revoked ≡ (revoked, ok true)
revoke_again_test =
    revoke_grant-is_revoked store store_laws granted 160000000000 [] revoked 150000000000 refl refl
      (λ old found. absurd (cc)) revoked_once (omega (arith))

-- The claims of a grant for the sandbox of the authorization examples.
abbrev bound : GrantClaims
bound = record granted { sandbox_id = ""; capability_bundle_revision = "sha256:0" }

abbrev gets : Gets
gets = record { assignment = λ name. ok assigned; pod = λ namespace name. ok pod }

bound_valid : validate_grant gets "sandboxes" bound ≡ ok tt
unfolding validate_grant
bound_valid = refl
