-- ===== src/Broker/Handlers/Parts.antt =====
-- internal/assignment/credentialbroker/broker.go: what the steps of an issuance and of a use establish.
use opensandbox_aks_governan.Base.{
  ℕ, String, Bool, true, false, none, some, find_key, message, Bool-cases, ◌==◌, ◌≡◌, refl, sym, ap,
  ◌∙◌, arith, string_eq, is_empty, Result, ok, err, eq_iff, Result-cases, Option-cases, inl, inr,
  ◌⊎◌,
}
use opensandbox_aks_governan.Externals.{Externals}
use opensandbox_aks_governan.Authz.Decision.{Decision}
use opensandbox_aks_governan.Governance.Target.{Target, normalize_target}
use opensandbox_aks_governan.Broker.Claims.{
  GrantClaims, IssueRequest, Config, ttl_of, ttl_allowed, valid_task_id, key_for, complete,
  in_scope,
}
use opensandbox_aks_governan.Broker.Handlers.{
  Reply, done, refused, aborted, ◌>>=◌, demand, answered, Jwt, Services, record_event, Issued,
  add_duration, check_input, claims_of, issue, bearer, parse_authorization, verify,
}

-- One step of a handler that went on.
pub >>=-eq-done {ℓ κ} :
    {A : Type ℓ} {B : Type κ} (reply : Reply A) (next : A → Reply B) {result : B}
    (h : (reply >>= next) ≡ done result)
    → (value : A) × (reply ≡ done value) × (next value ≡ done result)
>>=-eq-done (refused status text) next h = absurd (cc)
>>=-eq-done aborted next h = absurd (cc)
>>=-eq-done (done value) next h = (value, refl, h)

pub Reply-cases {ℓ} :
    {A : Type ℓ} (reply : Reply A)
    → ((value : A) × (reply ≡ done value))
      ⊎ ((status : ℕ) × (text : String) × (reply ≡ refused status text))
      ⊎ (reply ≡ aborted)
Reply-cases (done value) = inl (value, refl)
Reply-cases (refused status text) = inr (inl (status, text, refl))
Reply-cases aborted = inr (inr refl)

pub demand-eq-done :
    (test : Bool) (status : ℕ) (text : String) {u : Unit {0}}
    → demand test status text ≡ done u
    → test ≡ true
demand-eq-done true status text h = refl
demand-eq-done false status text h = absurd (cc)

pub answered-eq-done {ℓ} :
    {A : Type ℓ} (status : ℕ) (text : String) (answer : Result A) {a : A}
    → answered status text answer ≡ done a
    → answer ≡ ok a
answered-eq-done status text (ok b) h = ground (arith)
answered-eq-done status text (err e) h = absurd (cc)

-- A credential that is issued: to an identity, for a task, within the bounds, and for a canonical
-- target that the checker allows to it.
pub record IsIssue (x : Externals) (j : Jwt) (c : Config) (s : Services) (now : ℕ) (id : String)
    (recorded : ℕ) (r : IssueRequest) (t : Target) (d : Decision) (out : Issued) : Type 0 where
  pub identified : is_empty r.identity_token ≡ false
  pub task : valid_task_id r.task_id ≡ true
  pub lifetime : ttl_allowed (ttl_of r.ttl_seconds) ≡ true
  pub canonical : normalize_target x r.backend r.method r.host r.path ≡ ok t
  pub checked : s.check (check_input r t) ≡ ok d
  pub allowed : d.allow ≡ true
  pub claimed : out.claims ≡ claims_of j c r t d now id
  pub signed : j.sign c.signing_key_id c.signing_key out.claims ≡ ok out.credential
  pub audited : record_event s recorded "issued" out.claims ≡ ok tt
  pub ends : out.expires_at ≡ add_duration now (ttl_of r.ttl_seconds)

module _ (x : Externals) (j : Jwt) (c : Config) (s : Services) where
  -- A credential is issued only to a request with an identity token, a good task ID, a lifetime
  -- of one to fifteen minutes as the code computes it and a valid target, that the checker allows
  -- for the normalised target with the Pod found from the token, once the credential is signed with
  -- the current key and the audit has recorded it; its claims are those of the decision.
  pub issue_sound :
      (now : ℕ) (id : String) (recorded : ℕ) (r : IssueRequest) (out : Issued)
      → issue x j c s now id recorded (ok r) ≡ done out
      → (t : Target) × (d : Decision) × IsIssue x j c s now id recorded r t d out
  unfolding issue
  issue_sound now id recorded r out h =
      elim (Result-cases (normalize_target x r.backend r.method r.host r.path)) [
        | inr (e, bad) ↦ absurd (ground (arith))
        | inl (t, good) ↦ elim (Result-cases (s.check (check_input r t))) [
          | inr (e, bad) ↦ absurd (ground (arith))
          | inl (d, decided) ↦
              elim (Result-cases
                (j.sign c.signing_key_id c.signing_key (claims_of j c r t d now id))) [
                  | inr (e, bad) ↦ absurd (ground (arith))
                  | inl (token, signed) ↦ (t, d, issued t d token good decided signed)
                ]
        ]
      ]
    where
      issued :
          (t : Target) (d : Decision) (token : String)
          → normalize_target x r.backend r.method r.host r.path ≡ ok t
          → s.check (check_input r t) ≡ ok d
          → j.sign c.signing_key_id c.signing_key (claims_of j c r t d now id) ≡ ok token
          → IsIssue x j c s now id recorded r t d out
      issued t d token good decided signed = record {
        identified = ground (arith);
        task = ground (arith);
        lifetime = ground (arith);
        canonical = good;
        checked = decided;
        allowed = ground (arith);
        claimed = ground (arith);
        signed = ground (arith);
        audited = ground (arith);
        ends = ground (arith);
      }

-- A key is given for the algorithm HS256 only: the current one for its ID, or a previous one for its.
pub key_for-known :
    (c : Config) (method id key : String)
    → key_for c method id ≡ ok key
    → (method ≡ "HS256")
      × (((id ≡ c.signing_key_id) × (key ≡ c.signing_key))
          ⊎ (find_key id c.previous_signing_keys ≡ some key))
unfolding key_for
key_for-known c method id key h = elim (Bool-cases (method == "HS256")) [
  | inr other ↦ absurd (cc (rw other at h))
  | inl signing ↦ elim (Bool-cases (id == c.signing_key_id)) [
    | inl current ↦
        let same : ok c.signing_key ≡ ok key = rw (signing, current) at h in
        (
          ground (arith, eq_iff method "HS256"),
          inl (ground (arith, eq_iff id c.signing_key_id), ground (arith)),
        )
    | inr older ↦ (ground (arith, eq_iff method "HS256"), inr (previous (rw (signing, older) at h)))
  ]
]
  where
    previous :
        elim (find_key id c.previous_signing_keys) [
          | none ↦ err (message "unknown signing key")
          | some k ↦ ok k
        ]
          ≡ ok key
        → find_key id c.previous_signing_keys ≡ some key
    previous k = elim (Option-cases (find_key id c.previous_signing_keys)) [
      | inl missing ↦ absurd (cc (rw missing at k))
      | inr (found, there) ↦ let same : ok found ≡ ok key = rw there at k in there ∙ same_key same
    ]
      where
        same_key : {a b : String} → ok a ≡ ok b → some a ≡ some b
        same_key e = cc

pub scoped-target :
    (target : Target) (claims : GrantClaims)
    → in_scope target claims ≡ true
    → target ≡ record {
      backend = claims.backend;
      method = claims.method;
      host = claims.host;
      path = claims.path;
    }
unfolding in_scope
scoped-target target claims h =
    let backend : target.backend ≡ claims.backend =
      ground (arith, eq_iff target.backend claims.backend) in
    let method : target.method ≡ claims.method =
      ground (arith, eq_iff target.method claims.method) in
    let host : target.host ≡ claims.host = ground (arith, eq_iff target.host claims.host) in
    let path : target.path ≡ claims.path = ground (arith, eq_iff target.path claims.path) in
    λ i. record { backend = backend i; method = method i; host = host i; path = path i }

pub complete-parts :
    (c : GrantClaims)
    → complete c ≡ true
    → (is_empty c.id ≡ false)
      × (is_empty c.assignment_uid ≡ false)
      × (is_empty c.pod_uid ≡ false)
      × (is_empty c.capability_bundle_revision ≡ false)
      × (valid_task_id c.task_id ≡ true)
unfolding complete
complete-parts c h =
    (ground (arith), ground (arith), ground (arith), ground (arith), ground (arith))

module _ (x : Externals) (j : Jwt) (c : Config) where
  pub parse-inv :
      (now : ℕ) (header : String) (claims : GrantClaims)
      → parse_authorization x j c now header ≡ done claims
      → (token : String) × (target : Target) × (bearer header ≡ some token)
        × (j.parse c.audience c.issuer now (key_for c) token ≡ ok claims)
        × (complete claims ≡ true)
        × (normalize_target x claims.backend claims.method claims.host claims.path ≡ ok target)
        × (in_scope target claims ≡ true)
  unfolding parse_authorization
  parse-inv now header claims h = elim (Option-cases (bearer header)) [
    | inl bad ↦ absurd (ground (arith))
    | inr (token, carried) ↦
        elim (Result-cases (j.parse c.audience c.issuer now (key_for c) token)) [
          | inr (e, bad) ↦ absurd (ground (arith))
          | inl (found, parsed) ↦
              elim (Result-cases
                (normalize_target x found.backend found.method found.host found.path)) [
                  | inr (e, bad) ↦ absurd (ground (arith))
                  | inl (target, good) ↦
                      let same : found ≡ claims = ground (arith) in
                      (
                        token,
                        target,
                        carried,
                        rw (sym same) parsed,
                        rw (sym same) (ground (arith)),
                        rw (sym same) good,
                        rw (sym same) (ground (arith)),
                      )
                ]
        ]
  ]

  pub verify-inv :
      (s : Services) (now recorded : ℕ) (header : String) (claims : GrantClaims) (t : ℕ)
      → verify x j c s now recorded header ≡ done (claims, t)
      → (parse_authorization x j c now header ≡ done claims)
        × (s.is_revoked claims.id ≡ ok false)
        × (s.validate_grant claims ≡ ok tt)
        × (record_event s recorded "used" claims ≡ ok tt)
        × (claims.expires_at ≡ some t)
  unfolding verify
  verify-inv s now recorded header claims t h =
      elim (Reply-cases (parse_authorization x j c now header)) [
        | inr (inr bad) ↦ absurd (ground (arith))
        | inr (inl (status, text, bad)) ↦ absurd (ground (arith))
        | inl (found, parsed) ↦ elim (Option-cases found.expires_at) [
          | inl bad ↦ absurd (ground (arith))
          | inr (end, ends) ↦
              let same : found ≡ claims = ground (arith) in
              (
                parsed ∙ ap done same,
                rw (sym same) (ground (arith)),
                rw (sym same) (ground (arith)),
                rw (sym same) (ground (arith)),
                rw (sym same) (ground (arith)),
              )
        ]
      ]
