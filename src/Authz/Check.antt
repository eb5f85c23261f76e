-- ===== src/Authz/Check.antt =====
-- internal/assignment/authz/checker.go: `Check`, one call at a time, with its caches and counters.
-- The clock is read three times; the API server's answer to the TokenReview, the expiry in the token
-- and the audit sink are arguments.
pub mod Authority
pub mod Laws
use Prim.Native.String
use opensandbox_aks_governan.Base.{
  ℕ, count64, String, Bool, true, false, not, ◌&&◌, ◌||◌, Option, none, some, List, ◌+◌, ◌*◌, leb,
  nat_beq, if◌then◌else◌, is_empty, Error, message, wrapped, Result, ok, err,
}
use opensandbox_aks_governan.Externals.{Externals}
use opensandbox_aks_governan.Api.{second}
use opensandbox_aks_governan.Cluster.{
  BundleSpec, AllowField, absent, ill_typed, expression, resolved_uid,
}
use opensandbox_aks_governan.Authz.Decision.{CheckInput, Decision, empty_decision, denied}
use opensandbox_aks_governan.Authz.Grants.{match_access_grant_objects}
use opensandbox_aks_governan.Authz.Tokens.{ReviewedIdentity, TokenReview, Tokens, review_token}
use opensandbox_aks_governan.Authz.Programs.{Cel, program_key, program_for}
use opensandbox_aks_governan.Authz.Admit.{
  View, Exit, go, stop, Admitted, admit, base_decision, allow_field,
}

-- What an allow expression is evaluated on.
pub record CelInput : Type 0 where
  pub backend : String
  pub method : String
  pub host : String
  pub path : String
  pub headers : List (String × String)
  pub source_address : String

pub record Metrics : Type 0 where
  pub allows : ℕ
  pub denies : ℕ
  pub errors : ℕ
  pub cel_errors : ℕ
  pub freshness_denies : ℕ
  pub grants_used : ℕ

abbrev pub freshness_limit : ℕ
freshness_limit = 10 * second

-- Nanoseconds from Go's zero time to the Unix epoch.
abbrev pub unix_epoch : ℕ
unix_epoch = 62135596800 * second

-- `fresh`: `lastFreshUnixNano` is set, and at most ten seconds ago.
abbrev pub fresh : ℕ → ℕ → Bool
fresh last_fresh now =
    not (nat_beq last_fresh 0) && leb now (unix_epoch + last_fresh + freshness_limit)

abbrev pub bundle_source : String
bundle_source = "bundle"

abbrev pub access_request_source : String
access_request_source = "access-request"

-- The checker's own state.
pub record Checker (Program : Type 0) : Type 0 where
  pub programs : List (String × Program)
  pub tokens : Tokens
  pub last_fresh : ℕ
  pub metrics : Metrics

-- The instants at which `fresh`, `reviewToken` and the matching of grants read the clock.
pub record Instants : Type 0 where
  pub fresh_at : ℕ
  pub review_at : ℕ
  pub grant_at : ℕ

-- The state, the decision and the error that `Check` returns.
abbrev pub Outcome : Type 0 → Type 0
Outcome Program = Checker Program × Decision × Option Error

abbrev pub count_cel_error : Metrics → Metrics
count_cel_error m = record m { cel_errors = count64 m.cel_errors }

abbrev pub count_stale : Metrics → Metrics
count_stale m = record m { freshness_denies = count64 m.freshness_denies }

abbrev pub cel_failed : {Program : Type 0} → Checker Program → Checker Program
cel_failed s = record s { metrics = count_cel_error s.metrics }

abbrev pub stale : {Program : Type 0} → Checker Program → Checker Program
stale s = record s { metrics = count_stale s.metrics }

abbrev pub grant_used : Metrics → Metrics
grant_used m = record m { grants_used = count64 m.grants_used }

abbrev pub cel_input : Admitted → CheckInput → CelInput
cel_input a input = record {
  backend = input.backend;
  method = input.method;
  host = input.host;
  path = input.path;
  headers = input.headers;
  source_address = a.effective_source;
}

module _ (x : Externals) (cel : Cel CelInput) (view : View) where
  -- What a match, a miss or an error among the access requests makes of the decision.
  abbrev pub grant_result :
      Checker cel.Program
      → Decision
      → String
      → Result (String × String × Bool)
      → Outcome cel.Program
  grant_result s d bundle_reason (err e) = (s, d, some e)
  grant_result s d bundle_reason (ok (name, grant_reason, granted)) =
      if granted
      then (
        record s { metrics = grant_used s.metrics },
        record d {
          allow = true;
          source = access_request_source;
          access_request_name = name;
          reason = "approved access request matched exact target";
        },
        none,
      )
      else (
        s,
        record d { reason = String.◌++◌ bundle_reason (String.◌++◌ "; " grant_reason) },
        none,
      )

  abbrev pub try_grants : Checker cel.Program → Decision → String → ℕ → Outcome cel.Program
  try_grants s d bundle_reason now =
      grant_result s d bundle_reason
        (match_access_grant_objects x (view.access_requests d.assignment_uid) d now)

  -- The value of the allow expression: an error, true, or anything else.
  unfoldable pub after_eval : Checker cel.Program → Decision → ℕ → Option Bool → Outcome cel.Program
  after_eval s d now none =
      (cel_failed s, record d { reason = "backend policy evaluation failed" }, none)
  after_eval s d now (some true) = (
    s,
    record d {
      allow = true;
      source = bundle_source;
      reason = "backend allow expression returned true";
    },
    none,
  )
  after_eval s d now (some false) = try_grants s d "backend allow expression returned false" now

  unfoldable pub after_program :
      Checker cel.Program → Decision → ℕ → CelInput → Result cel.Program → Outcome cel.Program
  after_program s d now seen (err e) =
      (cel_failed s, record d { reason = "backend policy is invalid" }, none)
  after_program s d now seen (ok p) = after_eval s d now (cel.eval p seen)

  unfoldable pub evaluate :
      Checker cel.Program → Decision → ℕ → Admitted → CelInput → AllowField → Outcome cel.Program
  evaluate s d now a seen ill_typed = (s, d, some (message "allow is not a string"))
  evaluate s d now a seen absent = try_grants s d "backend is not granted" now
  evaluate s d now a seen (expression text) =
      let key =
        program_key (resolved_uid a.assignment.status.resolved) d.capability_bundle_revision
          seen.backend in
      let found = program_for cel key text s.programs in
      if is_empty text
      then (s, record d { reason = "backend policy is invalid" }, none)
      else after_program (record s { programs = found.0 }) d now seen found.1

  module _ (policy_revision : BundleSpec → Result String)
      (workload_namespace audience : String) where
    unfoldable pub after_admit :
        Checker cel.Program
        → ℕ
        → CheckInput
        → ReviewedIdentity
        → Exit Admitted
        → Outcome cel.Program
    after_admit s now input identity (stop d e) = (s, d, e)
    after_admit s now input identity (go a) =
        evaluate s (base_decision a identity input) now a (cel_input a input)
          (allow_field input.backend a.bundle.spec.egress)

    unfoldable pub after_review :
        Checker cel.Program
        → ℕ
        → CheckInput
        → Result (ReviewedIdentity × Decision)
        → Outcome cel.Program
    after_review s now input (err e) = (s, empty_decision, some e)
    after_review s now input (ok (identity, d)) =
        if d.allow
        then after_admit s now input identity
            (admit policy_revision x workload_namespace view input identity)
        else (s, d, none)

    -- `Check` before its deferred function.
    unfoldable pub check_body :
        Instants
        → Option ℕ
        → Result TokenReview
        → Checker cel.Program
        → CheckInput
        → Outcome cel.Program
    check_body at expiry review s input =
        let reviewed =
          review_token audience input.identity_token at.review_at expiry review s.tokens in
        if fresh s.last_fresh at.fresh_at
        then after_review (record s { tokens = reviewed.0 }) at.grant_at input reviewed.1
        else (stale s, denied "authorization cache is stale", none)

-- The deferred function: the decision is recorded, a failure to record an allow turns it into a
-- denial with an error, and one counter or two go up.
abbrev pub audited : Option (Decision → Result (Unit {0})) → Decision → Result (Unit {0})
audited none d = ok tt
audited (some record_decision) d = if is_empty d.assignment_uid then ok tt else record_decision d

abbrev pub after_audit : Result (Unit {0}) → Decision → Option Error → Decision × Option Error
after_audit (ok _) d e = (d, e)
after_audit (err failure) d e =
    if d.allow
    then (
      record d { allow = false; reason = "authorization audit is unavailable" },
      some (wrapped "record authorization decision" failure),
    )
    else (d, e)

abbrev pub tally : Metrics → Decision → Option Error → Metrics
tally m d (some e) = record m { errors = count64 m.errors; denies = count64 m.denies }
tally m d none =
    if d.allow
    then record m { allows = count64 m.allows }
    else record m { denies = count64 m.denies }

unfoldable pub finish_check :
    {Program : Type 0} → Option (Decision → Result (Unit {0})) → Outcome Program → Outcome Program
finish_check audit (s, d, e) =
    let (d', e') = after_audit (audited audit d) d e in
    (record s { metrics = tally s.metrics d' e' }, d', e')

module _ (x : Externals) (cel : Cel CelInput) (policy_revision : BundleSpec → Result String)
    (workload_namespace audience : String) (audit : Option (Decision → Result (Unit {0}))) where
  unfoldable pub check :
      View
      → Instants
      → Option ℕ
      → Result TokenReview
      → Checker cel.Program
      → CheckInput
      → Outcome cel.Program
  check view at expiry review s input =
      finish_check audit
        (check_body x cel view policy_revision workload_namespace audience at expiry review s input)
