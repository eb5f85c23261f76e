-- ===== src/Authz/Check/Laws.antt =====
-- What an allowed request rests on, and what the audit does to a decision.
use opensandbox_aks_governan.Base.{
  ℕ, count64, String, true, false, ◌≡◌, ◌≢◌, refl, sym, ap, subst, ◌∙◌, arith, Option, none,
  Bool-cases, inl, inr, ◌⊎◌, Error, Result, ok, err,
}
use opensandbox_aks_governan.Externals.{Externals}
use opensandbox_aks_governan.Cluster.{BundleSpec}
use opensandbox_aks_governan.Authz.Decision.{CheckInput, Decision}
use opensandbox_aks_governan.Authz.Tokens.{ReviewedIdentity, TokenReview, review_token}
use opensandbox_aks_governan.Authz.Programs.{Cel}
use opensandbox_aks_governan.Authz.Admit.{
  View, Exit, go, stop, Admitted, admit, base_decision, allow_field,
}
use opensandbox_aks_governan.Authz.Admit.Laws.{IsAdmitted, admit_sound, admit-stop}
use opensandbox_aks_governan.Authz.Check.{
  CelInput, fresh, Checker, Instants, Outcome, cel_input, after_admit, after_review, check_body,
  audited, after_audit, finish_check, check,
}
use opensandbox_aks_governan.Authz.Check.Authority.{Authority, evaluate_sound}

module _ (x : Externals) (cel : Cel CelInput) (view : View)
    (policy_revision : BundleSpec → Result String) (workload_namespace audience : String) where
  -- Why a request was allowed: the checker was fresh, the token's identity was accepted, the
  -- identity's Pod, assignment and bundle were admitted, and an authority was found.
  pub record IsJustified (at : Instants) (expiry : Option ℕ) (review : Result TokenReview)
      (s : Checker cel.Program) (input : CheckInput) (d : Decision) : Type 0 where
    pub is_fresh : fresh s.last_fresh at.fresh_at ≡ true
    pub identity : ReviewedIdentity
    pub pass : Decision
    pub reviewed :
        (review_token audience input.identity_token at.review_at expiry review s.tokens).1
        ≡ ok (identity, pass)
    pub passes : pass.allow ≡ true
    pub admitted : Admitted
    pub admission : IsAdmitted policy_revision x workload_namespace view input identity admitted
    pub authority :
        Authority x cel view
          (record s {
            tokens =
                (review_token audience input.identity_token at.review_at expiry review s.tokens).0;
          })
          (base_decision admitted identity input)
          at.grant_at
          admitted
          (cel_input admitted input)
          (allow_field input.backend admitted.bundle.spec.egress)
          d

  module _ (at : Instants) (expiry : Option ℕ) (review : Result TokenReview)
      (s : Checker cel.Program) (input : CheckInput) where
    admitted_sound :
        (t : Checker cel.Program) (identity : ReviewedIdentity) (out : Exit Admitted)
        → admit policy_revision x workload_namespace view input identity ≡ out
        → (after_admit x cel view policy_revision workload_namespace audience t at.grant_at input
            identity out).1.allow
          ≡ true
        → (a : Admitted) × IsAdmitted policy_revision x workload_namespace view input identity a
          × Authority x cel view t
              (base_decision a identity input)
              at.grant_at
              a
              (cel_input a input)
              (allow_field input.backend a.bundle.spec.egress)
              (after_admit x cel view policy_revision workload_namespace audience t at.grant_at
                input identity out).1
    unfolding after_admit base_decision
    admitted_sound t identity (stop d e) at_once allowed =
        absurd
          (cc (admit-stop policy_revision x workload_namespace view input identity d e at_once))
    admitted_sound t identity (go a) admitted allowed = (
      a,
      admit_sound policy_revision x workload_namespace view input identity a admitted,
      evaluate_sound x cel view t (base_decision a identity input) at.grant_at a (cel_input a input)
          (allow_field input.backend a.bundle.spec.egress) refl allowed,
    )

    reviewed_sound :
        (t : Checker cel.Program) (r : Result (ReviewedIdentity × Decision))
        → (after_review x cel view policy_revision workload_namespace audience t at.grant_at input
            r).1.allow
          ≡ true
        → (identity : ReviewedIdentity) × (pass : Decision) × (r ≡ ok (identity, pass))
          × (pass.allow ≡ true)
          × (after_review x cel view policy_revision workload_namespace audience t at.grant_at input
                r
              ≡ after_admit x cel view policy_revision workload_namespace audience t at.grant_at
                  input identity
                  (admit policy_revision x workload_namespace view input identity))
    unfolding after_review
    reviewed_sound t (err e) allowed = absurd (cc)
    reviewed_sound t (ok (identity, pass)) allowed = elim (Bool-cases pass.allow) [
      | inl good ↦ (identity, pass, refl, good, rw good)
      | inr bad ↦ absurd (cc (rw bad at allowed))
    ]

    body_sound :
        let out =
          check_body x cel view policy_revision workload_namespace audience at expiry review s
            input in
        out.1.allow ≡ true → IsJustified at expiry review s input out.1
    unfolding check_body
    body_sound allowed = elim (Bool-cases (fresh s.last_fresh at.fresh_at)) [
      | inr stale ↦ absurd (cc (rw stale at allowed))
      | inl good ↦
          let answer =
            review_token audience input.identity_token at.review_at expiry review s.tokens in
          let t = record s { tokens = answer.0 } in
          let (identity, pass, reviewed, passes, same) =
            reviewed_sound t answer.1 (rw good at allowed) in
          let (a, admission, authority) =
            admitted_sound t identity
              (admit policy_revision x workload_namespace view input identity) refl
              (rw (good, same) at allowed) in
          rw (good, same)
            (record {
              is_fresh = good;
              identity = identity;
              pass = pass;
              reviewed = reviewed;
              passes = passes;
              admitted = a;
              admission = admission;
              authority = authority;
            })
    ]

after_audit-allow :
    (r : Result (Unit {0})) (d : Decision) (e : Option Error)
    → (after_audit r d e).0.allow ≡ true
    → ((after_audit r d e).0 ≡ d) × (r ≡ ok tt)
after_audit-allow (ok tt) d e allowed = (refl, refl)
after_audit-allow (err failure) d e allowed = elim (Bool-cases d.allow) [
  | inl open_ ↦ absurd (cc (rw open_ at allowed))
  | inr closed ↦ absurd (cc (rw closed at allowed))
]

-- An allow that leaves the deferred function was an allow before it, unchanged and recorded.
finish_check-allow :
    {Program : Type 0} (audit : Option (Decision → Result (Unit {0}))) (out : Outcome Program)
    → (finish_check audit out).1.allow ≡ true
    → ((finish_check audit out).1 ≡ out.1) × (audited audit out.1 ≡ ok tt)
unfolding finish_check
finish_check-allow audit (s, d, e) allowed = after_audit-allow (audited audit d) d e allowed

-- The counters after the deferred function: an allow without error adds one to the allows alone,
-- anything else one to the denials alone.
pub finish_check_counts :
    {Program : Type 0} (audit : Option (Decision → Result (Unit {0}))) (out : Outcome Program)
    → let before = out.0.metrics in
      let after = finish_check audit out in
      ((after.1.allow ≡ true)
        × (after.2 ≡ none)
        × (after.0.metrics.allows ≡ count64 before.allows)
        × (after.0.metrics.denies ≡ before.denies))
      ⊎ (((after.1.allow ≡ false) ⊎ (after.2 ≢ none))
          × (after.0.metrics.allows ≡ before.allows)
          × (after.0.metrics.denies ≡ count64 before.denies))
unfolding finish_check
finish_check_counts audit (s, d, e) = ground arith

-- A request is allowed only if the checker is fresh, the token's identity was accepted, the
-- identity's Pod, assignment and bundle are admitted, the bundle's expression is true or exactly one
-- access request grants, and the decision is recorded.
pub check_sound :
    (x : Externals) (cel : Cel CelInput) (policy_revision : BundleSpec → Result String)
    (workload_namespace audience : String) (audit : Option (Decision → Result (Unit {0})))
    (view : View) (at : Instants) (expiry : Option ℕ) (review : Result TokenReview)
    (s : Checker cel.Program) (input : CheckInput)
    → let d =
        (check x cel policy_revision workload_namespace audience audit view at expiry review s
          input).1 in
      d.allow ≡ true
      → IsJustified x cel view policy_revision workload_namespace audience at expiry review s input
          d
        × (audited audit d ≡ ok tt)
unfolding check
check_sound x cel policy_revision workload_namespace audience audit view at expiry review s input
      allowed =
    let body =
      check_body x cel view policy_revision workload_namespace audience at expiry review s input in
    let (same, recorded) = finish_check-allow audit body allowed in
    let justified =
      body_sound x cel view policy_revision workload_namespace audience at expiry review s input
        (ap (λ d. d.allow) (sym same) ∙ allowed) in
    subst
      (λ d.
        IsJustified x cel view policy_revision workload_namespace audience at expiry review s input
          d
        × (audited audit d ≡ ok tt))
      (sym same) (justified, recorded)
