-- ===== src/Broker/Handlers.antt =====
-- internal/assignment/credentialbroker/broker.go: `issue`, `verify`, `revoke`, `parseAuthorization`
-- and `record`. A handler's answer is what it writes: a refusal has a status and a text. What the
-- checker, the validator, the revocation store and the audit sink answer is in `Services`; the JWT
-- library is a parameter.
pub mod Laws
pub mod Parts
pub mod Issues
use opensandbox_aks_governan.Base.{
  ℕ, ℤ, pos, negsuc, String, Bool, true, false, not, ◌&&◌, Option, none, some, List, [], ◌∷◌, ◌+◌,
  ◌≤◌, ◌<◌, ◌≡◌, is_empty, join_text, is_space, all_chars, trim_space, cut_prefix, contains, Error,
  message, Result, ok, err, ◌==◌, string_eq, ltb, leb,
}
use opensandbox_aks_governan.Externals.{Externals}
use opensandbox_aks_governan.Authz.Decision.{CheckInput, Decision}
use opensandbox_aks_governan.Governance.Target.{Target, normalize_target}
use opensandbox_aks_governan.Broker.Claims.{
  GrantClaims, IssueRequest, Config, ttl_of, ttl_allowed, valid_task_id, key_for, complete,
  in_scope,
}

-- What a handler does: give a result, write an error, or panic on a nil pointer.
pub data Reply {ℓ} (A : Type ℓ) : Type ℓ where
  done : A → Reply A
  refused : ℕ → String → Reply A
  aborted : Reply A

infixl 5 ◌>>=◌
abbrev pub ◌>>=◌ {ℓ κ} : {A : Type ℓ} {B : Type κ} (reply : Reply A) (next : A → Reply B) → Reply B
refused status text >>= next = refused status text
aborted >>= next = aborted
done value >>= next = next value

infixl 5 ◌>>◌
abbrev pub ◌>>◌ {κ} : {B : Type κ} (reply : Reply (Unit {0})) (rest : Reply B) → Reply B
reply >> rest = reply >>= (λ _. rest)

-- `if !test { writeError(w, status, text); return }`.
abbrev pub demand : Bool → ℕ → String → Reply (Unit {0})
demand true status text = done tt
demand false status text = refused status text

-- `if err != nil { writeError(w, status, text); return }`.
abbrev pub answered {ℓ} : {A : Type ℓ} → ℕ → String → Result A → Reply A
answered status text (ok a) = done a
answered status text (err _) = refused status text

-- golang-jwt: `NewNumericDate`, signing with HS256 under a key and its ID, and `ParseWithClaims`
-- with the required audience and issuer, the time, and the key function.
pub record Jwt : Type 0 where
  pub numeric_date : ℕ → ℕ
  pub algorithm : String → String
  pub key_id : String → String
  pub signed_with : String → String → Bool
  pub sign : String → String → GrantClaims → Result String
  pub parse : String → String → ℕ → (String → String → Result String) → String → Result GrantClaims

-- The registered claims that the library checks: audience, issuer, and the times that are given.
pub record IsCurrent (audience issuer : String) (now : ℕ) (c : GrantClaims) : Type 0 where
  pub for_audience : contains c.audience audience ≡ true
  pub by_issuer : c.issuer ≡ issuer
  pub not_expired : (t : ℕ) → c.expires_at ≡ some t → now < t
  pub begun : (t : ℕ) → c.not_before ≡ some t → t ≤ now

-- Claims whose times are all whole, so that a token carries them as they are.
pub record IsWhole (date : ℕ → ℕ) (c : GrantClaims) : Type 0 where
  pub expires : (t : ℕ) → c.expires_at ≡ some t → date t ≡ t
  pub issued : (t : ℕ) → c.issued_at ≡ some t → date t ≡ t
  pub begins : (t : ℕ) → c.not_before ≡ some t → date t ≡ t

-- Documented behaviour: a date is rounded down to a second; a signed token parses to its claims,
-- if their times are whole and they are current and the key function gives the key again, and has no
-- white space; parsed claims are current, and the token is signed with the key that the key function
-- gives for the algorithm and the key ID in the token's own header.
pub record JwtLaws (j : Jwt) : Type 0 where
  pub date_le : (t : ℕ) → j.numeric_date t ≤ t
  pub date_whole : (t : ℕ) → j.numeric_date (j.numeric_date t) ≡ j.numeric_date t
  pub parse_signed :
      (audience issuer : String) (now : ℕ) (key_of : String → String → Result String)
      (id key token : String) (c : GrantClaims)
      → j.sign id key c ≡ ok token
      → key_of "HS256" id ≡ ok key
      → IsWhole j.numeric_date c
      → IsCurrent audience issuer now c
      → j.parse audience issuer now key_of token ≡ ok c
  pub parse_current :
      (audience issuer : String) (now : ℕ) (key_of : String → String → Result String)
      (token : String) (c : GrantClaims)
      → j.parse audience issuer now key_of token ≡ ok c
      → IsCurrent audience issuer now c
  pub parse_keyed :
      (audience issuer : String) (now : ℕ) (key_of : String → String → Result String)
      (token : String) (c : GrantClaims)
      → j.parse audience issuer now key_of token ≡ ok c
      → (key : String) × (key_of (j.algorithm token) (j.key_id token) ≡ ok key)
        × (j.signed_with key token ≡ true)
  pub compact :
      (id key token : String) (c : GrantClaims)
      → j.sign id key c ≡ ok token
      → (is_empty token ≡ false) × (all_chars (λ c. not (is_space c)) token ≡ true)

-- `GrantValidator`, `RevocationStore` and `AuditSink`; a nil sink is none.
pub record Services : Type 0 where
  pub check : CheckInput → Result Decision
  pub validate_grant : GrantClaims → Result (Unit {0})
  pub is_revoked : String → Result Bool
  pub revoke : GrantClaims → Result (Unit {0})
  pub sink : Option (ℕ → String → GrantClaims → Result (Unit {0}))

unfoldable pub record_event : Services → ℕ → String → GrantClaims → Result (Unit {0})
record_event s now action c = elim s.sink [ none ↦ ok tt | some sink ↦ sink now action c ]

-- What `issue` writes: the credential, its claims, which have every other name that it writes, and
-- the end of its life.
pub record Issued : Type 0 where
  pub credential : String
  pub claims : GrantClaims
  pub expires_at : ℕ

-- `now.Add(ttl)` for a lifetime within the bounds, which is never negative.
abbrev pub add_duration : ℕ → ℤ → ℕ
add_duration now (pos d) = now + d
add_duration now (negsuc _) = now

abbrev pub check_input : IssueRequest → Target → CheckInput
check_input r t = record {
  backend = t.backend;
  identity_token = r.identity_token;
  method = t.method;
  host = t.host;
  path = t.path;
  headers = [];
  source_address = "";
  derive_source_from_identity = true;
}

unfoldable pub claims_of :
    Jwt → Config → IssueRequest → Target → Decision → ℕ → String → GrantClaims
claims_of j c r t d now id = record {
  assignment_name = d.assignment_name;
  assignment_uid = d.assignment_uid;
  sandbox_id = d.sandbox_id;
  pod_uid = d.pod_uid;
  capability_bundle_name = d.capability_bundle_name;
  capability_bundle_revision = d.capability_bundle_revision;
  task_id = r.task_id;
  backend = t.backend;
  method = t.method;
  host = t.host;
  path = t.path;
  issuer = c.issuer;
  subject = d.assignment_uid;
  audience = c.audience ∷ [];
  expires_at = some (j.numeric_date (add_duration now (ttl_of r.ttl_seconds)));
  issued_at = some (j.numeric_date now);
  not_before = some (j.numeric_date now);
  id = id;
}

-- `now` is read after the check, `id` is `uuid.NewString()`, `recorded` the time of the audit event.
unfoldable pub issue :
    Externals → Jwt → Config → Services → ℕ → String → ℕ → Result IssueRequest → Reply Issued
issue x j c s now id recorded body = do
  r ← answered 400 "invalid JSON request" body
  demand (not (is_empty r.identity_token)) 400 "Pod-bound identity is required"
  demand (valid_task_id r.task_id) 400 "task ID is invalid"
  demand (ttl_allowed (ttl_of r.ttl_seconds)) 400 "TTL must be between 60 and 900 seconds"
  t ← answered 400 "target is invalid" (normalize_target x r.backend r.method r.host r.path)
  d ← answered 503 "credential authorization is unavailable" (s.check (check_input r t))
  demand d.allow 403 "credential scope is not authorized"
  let claims = claims_of j c r t d now id
  token ← answered 500 "credential issuance failed" (j.sign c.signing_key_id c.signing_key claims)
  answered 503 "credential audit is unavailable" (record_event s recorded "issued" claims)
  done (record {
    credential = token;
    claims = claims;
    expires_at = add_duration now (ttl_of r.ttl_seconds);
  })

-- `parseAuthorization` of the Authorization header: every error is answered alike.
unfoldable pub bearer : String → Option String
bearer header = elim (cut_prefix "Bearer " (trim_space header)) [
  | none ↦ none
  | some token ↦ elim (is_empty token) [ true ↦ none | false ↦ some token ]
]

-- The header that carries a credential.
abbrev pub bearer_header : String → String
bearer_header token = join_text "Bearer " token

abbrev pub invalid_credential : String
invalid_credential = "credential is invalid or expired"

abbrev pub bearer_reply : Option String → Reply String
bearer_reply none = refused 401 invalid_credential
bearer_reply (some token) = done token

unfoldable pub parse_authorization : Externals → Jwt → Config → ℕ → String → Reply GrantClaims
parse_authorization x j c now header = do
  token ← bearer_reply (bearer header)
  claims ← answered 401 invalid_credential (j.parse c.audience c.issuer now (key_for c) token)
  demand (complete claims) 401 invalid_credential
  t ←
      answered 401 invalid_credential
        (normalize_target x claims.backend claims.method claims.host claims.path)
  demand (in_scope t claims) 401 invalid_credential
  done claims

-- What `verify` writes after its checks: the claims with the end of life, which it reads through a
-- pointer.
abbrev pub verified : GrantClaims → Reply (GrantClaims × ℕ)
verified c = elim c.expires_at [ none ↦ aborted | some t ↦ done (c, t) ]

unfoldable pub verify :
    Externals → Jwt → Config → Services → ℕ → ℕ → String → Reply (GrantClaims × ℕ)
verify x j c s now recorded header = do
  claims ← parse_authorization x j c now header
  revoked ← answered 503 "credential revocation state is unavailable" (s.is_revoked claims.id)
  demand (not revoked) 401 "credential is revoked"
  answered 401 "credential sandbox binding is stale" (s.validate_grant claims)
  answered 503 "credential audit is unavailable" (record_event s recorded "used" claims)
  verified claims

unfoldable pub revoke : Externals → Jwt → Config → Services → ℕ → ℕ → String → Reply (Unit {0})
revoke x j c s now recorded header = do
  claims ← parse_authorization x j c now header
  answered 503 "credential revocation state is unavailable" (s.revoke claims)
  answered 503 "credential audit is unavailable" (record_event s recorded "revoked" claims)
