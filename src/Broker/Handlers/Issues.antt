-- ===== src/Broker/Handlers/Issues.antt =====
-- internal/assignment/credentialbroker/broker.go: what an issued credential says, and to whom.
use opensandbox_aks_governan.Base.{
  ℕ, ◌+◌, ◌*◌, ◌≤◌, ℤ, pos, negsuc, String, true, false, some, [], ◌∷◌, ◌≡◌, refl, ap, ◌∙◌, arith,
  is_empty, ok,
}
use opensandbox_aks_governan.Api.{second}
use opensandbox_aks_governan.Externals.{Externals}
use opensandbox_aks_governan.Authz.Decision.{Decision}
use opensandbox_aks_governan.Governance.Target.{Target, normalize_target}
use opensandbox_aks_governan.Broker.Claims.{
  IssueRequest, Config, ttl_of, ttl_allowed, valid_task_id,
}
use opensandbox_aks_governan.Broker.Handlers.{
  done, Jwt, Services, record_event, Issued, add_duration, claims_of, issue,
}
use opensandbox_aks_governan.Broker.Handlers.Parts.{issue_sound}

allowed-bounds :
    (ttl : ℤ)
    → ttl_allowed ttl ≡ true
    → (n : ℕ) × (ttl ≡ pos n) × (60 * second ≤ n) × (n ≤ 900 * second)
allowed-bounds (pos n) h = (n, refl, ground (arith), ground (arith))
allowed-bounds (negsuc n) h = absurd (cc)

-- A credential for what the checker allowed to the Pod behind an identity token.
pub record IsCredential (x : Externals) (j : Jwt) (c : Config) (s : Services) (now : ℕ)
    (id : String) (recorded : ℕ) (r : IssueRequest) (t : Target) (d : Decision) (lifetime : ℕ)
    (out : Issued) : Type 0 where
  pub identified : is_empty r.identity_token ≡ false
  pub task : valid_task_id r.task_id ≡ true
  pub asked : ttl_of r.ttl_seconds ≡ pos lifetime
  pub least : 60 * second ≤ lifetime
  pub most : lifetime ≤ 900 * second
  pub canonical : normalize_target x r.backend r.method r.host r.path ≡ ok t
  pub checked :
      s.check (record {
        backend = t.backend;
        identity_token = r.identity_token;
        method = t.method;
        host = t.host;
        path = t.path;
        headers = [];
        source_address = "";
        derive_source_from_identity = true;
      })
      ≡ ok d
  pub allowed : d.allow ≡ true
  pub claims : out.claims ≡ record {
    assignment_name = d.assignment_name;
    assignment_uid = d.assignment_uid;
    sandbox_id = d.sandbox_id;
    pod_uid = d.pod_uid;
    capability_bundle_name = d.capability_bundle_name;
    capability_bundle_revision = d.capability_bundle_revision;
    task_id = r.task_id;
    backend = t.backend;
    method = t.method;
    host = t.host;
    path = t.path;
    issuer = c.issuer;
    subject = d.assignment_uid;
    audience = c.audience ∷ [];
    expires_at = some (j.numeric_date (now + lifetime));
    issued_at = some (j.numeric_date now);
    not_before = some (j.numeric_date now);
    id = id;
  }
  pub signed : j.sign c.signing_key_id c.signing_key out.claims ≡ ok out.credential
  pub audited : record_event s recorded "issued" out.claims ≡ ok tt
  pub ends : out.expires_at ≡ now + lifetime

-- A credential is issued only to a request with an identity token, a good task ID, a canonical target
-- and a lifetime, as its int64 product comes out, of 60 to 900 seconds, for which the checker allowed
-- the canonical target to the Pod behind the token. Its claims are the decision's assignment, sandbox,
-- Pod, bundle and revision, the canonical target, the task and the new ID, for the configured issuer
-- and audience, from now until the end of that lifetime, cut off to dates; it is signed with the
-- current key, and its issuance was recorded.
pub issue-IsCredential :
    (x : Externals) (j : Jwt) (c : Config) (s : Services) (now : ℕ) (id : String) (recorded : ℕ)
    (r : IssueRequest) (out : Issued)
    → issue x j c s now id recorded (ok r) ≡ done out
    → (t : Target) × (d : Decision) × (lifetime : ℕ) × IsCredential x j c s now id recorded r t d
        lifetime out
unfolding claims_of
issue-IsCredential x j c s now id recorded r out h =
    let (t, d, i) = issue_sound x j c s now id recorded r out h in
    let (n, asked, least, most) = allowed-bounds (ttl_of r.ttl_seconds) i.lifetime in
    (
      t,
      d,
      n,
      record {
        identified = i.identified;
        task = i.task;
        asked = asked;
        least = least;
        most = most;
        canonical = i.canonical;
        checked = i.checked;
        allowed = i.allowed;
        claims =
            i.claimed
            ∙ ap
                (λ z. record (claims_of j c r t d now id) {
                  expires_at = some (j.numeric_date (add_duration now z));
                })
                asked;
        signed = i.signed;
        audited = i.audited;
        ends = i.ends ∙ ap (add_duration now) asked;
      },
    )
