-- ===== src/Broker/Handlers/Laws.antt =====
-- What a verified credential rests on, that an issued one is accepted, and that a revoked one is not.
use opensandbox_aks_governan.Base.{
  ℕ, String, true, false, not, some, find_key, ◌≡◌, refl, sym, ap, ◌∙◌, ◌<◌, ◌≤◌, ◌%◌, arith,
  string_eq, is_empty, is_space, all_chars, trim_space-bearer, has_char, ok, eq_iff, ◌⊎◌, subst,
}
use opensandbox_aks_governan.Externals.{Externals, Laws}
use opensandbox_aks_governan.Authz.Decision.{Decision}
use opensandbox_aks_governan.Governance.Target.{Target, normalize_target}
use opensandbox_aks_governan.Governance.Target.Canonical.{normalize_target_idempotent}
use opensandbox_aks_governan.Broker.Claims.{
  GrantClaims, IssueRequest, Config, valid_task_id, key_for, complete, in_scope,
}
use opensandbox_aks_governan.Api.{second}
use opensandbox_aks_governan.Broker.Store.{
  Revocation, RevocationApi, ApiLaws, object_name, revoke_grant, is_revoked,
}
use opensandbox_aks_governan.Broker.Store.Laws.{revoke_grant-is_revoked}
use opensandbox_aks_governan.Broker.Handlers.{
  done, refused, Jwt, JwtLaws, IsWhole, IsCurrent, Services, record_event, Issued, check_input,
  claims_of, issue, bearer, bearer_header, parse_authorization, verify,
}
use opensandbox_aks_governan.Broker.Handlers.Parts.{
  issue_sound, key_for-known, scoped-target, complete-parts, parse-inv, verify-inv,
}

-- A credential in use: carried as a bearer token, current and signed under a known key, complete
-- and canonical, not revoked, still bound to its sandbox, and recorded.
pub record IsUse (x : Externals) (j : Jwt) (c : Config) (s : Services) (now recorded : ℕ)
    (header : String) (claims : GrantClaims) (t : ℕ) : Type 0 where
  pub token : String
  pub carried : bearer header ≡ some token
  pub parsed : j.parse c.audience c.issuer now (key_for c) token ≡ ok claims
  pub current : IsCurrent c.audience c.issuer now claims
  pub algorithm : j.algorithm token ≡ "HS256"
  pub key : String
  pub trusted :
      ((j.key_id token ≡ c.signing_key_id) × (key ≡ c.signing_key))
      ⊎ (find_key (j.key_id token) c.previous_signing_keys ≡ some key)
  pub signed : j.signed_with key token ≡ true
  pub identified : (is_empty claims.id ≡ false) × (is_empty claims.assignment_uid ≡ false)
  pub bound_to :
      (is_empty claims.pod_uid ≡ false) × (is_empty claims.capability_bundle_revision ≡ false)
  pub for_task : valid_task_id claims.task_id ≡ true
  pub canonical :
      normalize_target x claims.backend claims.method claims.host claims.path
      ≡ ok (record {
        backend = claims.backend;
        method = claims.method;
        host = claims.host;
        path = claims.path;
      })
  pub kept : s.is_revoked claims.id ≡ ok false
  pub bound : s.validate_grant claims ≡ ok tt
  pub audited : record_event s recorded "used" claims ≡ ok tt
  pub ends : claims.expires_at ≡ some t
  pub alive : now < t

bearer-header :
    (token : String)
    → is_empty token ≡ false
    → all_chars (λ c. not (is_space c)) token ≡ true
    → bearer (bearer_header token) ≡ some token
unfolding bearer
bearer-header String.[] h k = absurd (cc)
bearer-header (String.◌∷◌ c s) h k = rw (bearer, trim_space-bearer c s k) refl

-- A decision of the checker that names an assignment, its Pod and its policy revision.
pub record IsNamed (d : Decision) : Type 0 where
  pub assignment : is_empty d.assignment_uid ≡ false
  pub pod : is_empty d.pod_uid ≡ false
  pub revision : is_empty d.capability_bundle_revision ≡ false

module _ (x : Externals) (l : Laws x) (j : Jwt) (w : JwtLaws j) (c : Config) (s : Services) where
  -- A credential is verified only if the token is signed, by HS256 in its own header, with the key
  -- that its key ID names, the current or a previous one, and is within its times for this audience
  -- and issuer. Its ID, assignment UID, Pod UID and revision are set, its task ID is a good one and its
  -- target is its own canonical form; it is not revoked, the grant validator still accepts it, and its
  -- use was recorded; and it has an end, which is not over.
  pub verify_sound :
      (now recorded : ℕ) (header : String) (claims : GrantClaims) (t : ℕ)
      → verify x j c s now recorded header ≡ done (claims, t)
      → IsUse x j c s now recorded header claims t
  verify_sound now recorded header claims t h =
      let (parsed, kept, bound, audited, ends) =
        verify-inv x j c s now recorded header claims t h in
      let (token, target, carried, read, entire, good, scoped) =
        parse-inv x j c now header claims parsed in
      let (key, known, signed) =
        w.parse_keyed c.audience c.issuer now (key_for c) token claims read in
      let (algorithm, trusted) = key_for-known c (j.algorithm token) (j.key_id token) key known in
      let current = w.parse_current c.audience c.issuer now (key_for c) token claims read in
      let (has_id, has_assignment, has_pod, has_revision, task) = complete-parts claims entire in
      record {
        token = token;
        carried = carried;
        parsed = read;
        current = current;
        algorithm = algorithm;
        key = key;
        trusted = trusted;
        signed = signed;
        identified = (has_id, has_assignment);
        bound_to = (has_pod, has_revision);
        for_task = task;
        canonical = good ∙ ap ok (scoped-target target claims scoped);
        kept = kept;
        bound = bound;
        audited = audited;
        ends = ends;
        alive = current.not_expired t ends;
      }

  issued-IsCurrent :
      (old : Config) (now now' : ℕ) (id : String) (r : IssueRequest) (t : Target) (d : Decision)
      (claims : GrantClaims) (end : ℕ)
      → claims ≡ claims_of j old r t d now id
      → old.issuer ≡ c.issuer
      → old.audience ≡ c.audience
      → claims.expires_at ≡ some end
      → now ≤ now'
      → now' < end
      → IsCurrent c.audience c.issuer now' claims
  unfolding claims_of
  issued-IsCurrent old now now' id r t d claims end e issuer audience ends late early = record {
    for_audience = rw (ap (λ v. v.audience) e) (ground (arith, eq_iff old.audience c.audience));
    by_issuer = ap (λ v. v.issuer) e ∙ issuer;
    not_expired = λ u k. ground (arith);
    begun = λ u k.
        let dated : some (j.numeric_date now) ≡ some u = sym (ap (λ v. v.not_before) e) ∙ k in
        ground (arith, w.date_le now);
  }

  issued-canonical :
      (old : Config) (now : ℕ) (id : String) (r : IssueRequest) (t : Target) (d : Decision)
      (claims : GrantClaims)
      → claims ≡ claims_of j old r t d now id
      → normalize_target x r.backend r.method r.host r.path ≡ ok t
      → has_char b':' claims.host ≡ false
      → (normalize_target x claims.backend claims.method claims.host claims.path ≡ ok t)
        × (in_scope t claims ≡ true)
  unfolding claims_of in_scope
  issued-canonical old now id r t d claims e good plain =
      let host : claims.host ≡ t.host = ap (λ v. v.host) e in
      let backend : claims.backend ≡ t.backend = ap (λ v. v.backend) e in
      let method : claims.method ≡ t.method = ap (λ v. v.method) e in
      let path : claims.path ≡ t.path = ap (λ v. v.path) e in
      (
        rw (host, backend, method, path)
            (normalize_target_idempotent x l r.backend r.method r.host r.path t good
              (rw (sym host) plain)),
        ground (
          arith,
          eq_iff t.backend claims.backend,
          eq_iff t.method claims.method,
          eq_iff t.host claims.host,
          eq_iff t.path claims.path,
        ),
      )

  issued-IsWhole :
      (old : Config) (now : ℕ) (id : String) (r : IssueRequest) (t : Target) (d : Decision)
      (claims : GrantClaims)
      → claims ≡ claims_of j old r t d now id
      → IsWhole j.numeric_date claims
  unfolding claims_of
  issued-IsWhole old now id r t d claims e = record {
    expires = λ u k. whole _ u (sym (ap (λ v. v.expires_at) e) ∙ k);
    issued = λ u k. whole _ u (sym (ap (λ v. v.issued_at) e) ∙ k);
    begins = λ u k. whole _ u (sym (ap (λ v. v.not_before) e) ∙ k);
  }
    where
      same_time : {a b : ℕ} → some a ≡ some b → a ≡ b
      same_time k = cc

      whole : (a u : ℕ) → some (j.numeric_date a) ≡ some u → j.numeric_date u ≡ u
      whole a u k = subst (λ v. j.numeric_date v ≡ v) (same_time k) (w.date_whole a)

  issued-complete :
      (old : Config) (now : ℕ) (id : String) (r : IssueRequest) (t : Target) (d : Decision)
      (claims : GrantClaims)
      → claims ≡ claims_of j old r t d now id
      → is_empty id ≡ false
      → IsNamed d
      → valid_task_id r.task_id ≡ true
      → complete claims ≡ true
  unfolding claims_of complete
  issued-complete old now id r t d claims e unique named task =
      ap complete e ∙ ground (arith, unique, named.assignment, named.pod, named.revision, task)

  -- A credential that was issued under one configuration is verified, from its issuance until its
  -- end of life, under every configuration for the same issuer and audience that still gives its
  -- key for its key ID, unless its host is an IPv6 address, if its ID is not empty and the checker's
  -- decision on it names an assignment, a Pod and a policy revision: while the grant is not revoked,
  -- the grant validator accepts it and its use is recorded, the answer has the claims that were
  -- issued.
  pub issue-verify :
      (old : Config) (issuing : Services) (now now' recorded recorded' : ℕ) (id : String)
      (r : IssueRequest) (out : Issued) (end : ℕ)
      → issue x j old issuing now id recorded (ok r) ≡ done out
      → old.issuer ≡ c.issuer
      → old.audience ≡ c.audience
      → key_for c "HS256" old.signing_key_id ≡ ok old.signing_key
      → is_empty id ≡ false
      → ((t : Target) (d : Decision) → issuing.check (check_input r t) ≡ ok d → IsNamed d)
      → has_char b':' out.claims.host ≡ false
      → out.claims.expires_at ≡ some end
      → now ≤ now'
      → now' < end
      → s.is_revoked out.claims.id ≡ ok false
      → s.validate_grant out.claims ≡ ok tt
      → record_event s recorded' "used" out.claims ≡ ok tt
      → verify x j c s now' recorded' (bearer_header out.credential) ≡ done (out.claims, end)
  unfolding verify parse_authorization
  issue-verify old issuing now now' recorded recorded' id r out end h issuer audience key unique
        names plain ends late early kept bound audited =
      let (t, d, i) = issue_sound x j old issuing now id recorded r out h in
      let entire =
        issued-complete old now id r t d out.claims i.claimed unique (names t d i.checked) i.task in
      let (filled, spaceless) =
        w.compact old.signing_key_id old.signing_key out.credential out.claims i.signed in
      let read =
        w.parse_signed c.audience c.issuer now' (key_for c) old.signing_key_id old.signing_key
          out.credential out.claims i.signed key
          (issued-IsWhole old now id r t d out.claims i.claimed)
          (issued-IsCurrent old now now' id r t d out.claims end i.claimed issuer audience ends late
            early) in
      let (good, scoped) =
        issued-canonical old now id r t d out.claims i.claimed i.canonical plain in
      rw
        (
          bearer-header out.credential filled spaceless,
          read,
          entire,
          good,
          scoped,
          kept,
          bound,
          audited,
          ends,
        )
        refl

-- Once the revocation of a credential has been recorded, a broker that asks that store refuses the
-- credential at every time before its end.
pub revoke-verify :
    (x : Externals) (j : Jwt) (c : Config) (s : Services) (api : RevocationApi) (laws : ApiLaws api)
    (claims : GrantClaims) (end now asked recorded : ℕ) (before after : api.State) (header : String)
    → claims.expires_at ≡ some end
    → end % second ≡ 0
    → ((old : Revocation)
        → api.get (object_name claims.id) before ≡ ok old
        → old.expires_at ≡ api.format_time end)
    → revoke_grant api claims before ≡ some (after, ok tt)
    → asked < end
    → s.is_revoked claims.id ≡ (is_revoked api asked claims.id after).1
    → parse_authorization x j c now header ≡ done claims
    → verify x j c s now recorded header ≡ refused 401 "credential is revoked"
unfolding verify
revoke-verify x j c s api laws claims end now asked recorded before after header ends whole kept h
      early answer parsed =
    let reported =
      revoke_grant-is_revoked api laws claims end before after asked ends whole kept h early in
    rw (parsed, answer, reported) refl
