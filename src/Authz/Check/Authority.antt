-- ===== src/Authz/Check/Authority.antt =====
-- Where an allow comes from: the bundle's expression or one access request.
use opensandbox_aks_governan.Base.{
  ℕ, String, Bool, true, false, ◌≡◌, refl, Option, none, some, [], ◌∷◌, Bool-cases, inl, inr,
  is_empty, Result, ok, err,
}
use opensandbox_aks_governan.Externals.{Externals}
use opensandbox_aks_governan.Cluster.{AllowField, absent, ill_typed, expression, resolved_uid}
use opensandbox_aks_governan.Authz.Decision.{Decision}
use opensandbox_aks_governan.Authz.Grants.{match_access_grant_objects}
use opensandbox_aks_governan.Authz.Grants.Laws.{Granted, match_access_grant_objects_sound}
use opensandbox_aks_governan.Authz.Programs.{Cel, program_key, program_for}
use opensandbox_aks_governan.Authz.Admit.{View, Admitted}
use opensandbox_aks_governan.Authz.Check.{
  CelInput, bundle_source, access_request_source, Checker, grant_result, try_grants, after_eval,
  after_program, evaluate,
}

module _ (x : Externals) (cel : Cel CelInput) (view : View) where
  -- The authority behind an allow: the bundle's expression, compiled and evaluated to true, or the
  -- only access request that grants.
  pub data Authority (s : Checker cel.Program) (d : Decision) (now : ℕ) (a : Admitted)
      (seen : CelInput) (f : AllowField) (d' : Decision) : Type 0 where
    by_bundle :
        (text : String) (p : cel.Program)
        → f ≡ expression text
        → (program_for cel
            (program_key
              (resolved_uid a.assignment.status.resolved)
              d.capability_bundle_revision
              seen.backend)
            text
            s.programs).1
          ≡ ok p
        → cel.eval p seen ≡ some true
        → d'.source ≡ bundle_source
        → Authority s d now a seen f d'
    by_grant :
        (name : String)
        → Granted x d now (view.access_requests d.assignment_uid) (name ∷ [])
        → d'.access_request_name ≡ name
        → d'.source ≡ access_request_source
        → Authority s d now a seen f d'

  grant_result_sound :
      (s : Checker cel.Program) (d : Decision) (text : String) (r : Result (String × String × Bool))
      → d.allow ≡ false
      → (grant_result x cel view s d text r).1.allow ≡ true
      → (name : String) × (why : String) × (r ≡ ok (name, why, true))
        × ((grant_result x cel view s d text r).1.access_request_name ≡ name)
        × ((grant_result x cel view s d text r).1.source ≡ access_request_source)
  grant_result_sound s d text (err e) closed allowed = cc
  grant_result_sound s d text (ok (name, why, true)) closed allowed = (name, why, refl, refl, refl)
  grant_result_sound s d text (ok (name, why, false)) closed allowed = cc

  grants_sound :
      (s s₀ : Checker cel.Program) (d : Decision) (text : String) (now : ℕ) (a : Admitted)
      (seen : CelInput) (f : AllowField)
      → d.allow ≡ false
      → (try_grants x cel view s d text now).1.allow ≡ true
      → Authority s₀ d now a seen f (try_grants x cel view s d text now).1
  grants_sound s s₀ d text now a seen f closed allowed =
      let objects = view.access_requests d.assignment_uid in
      let (name, why, matched, named, source) =
        grant_result_sound s d text (match_access_grant_objects x objects d now) closed allowed in
      by_grant name (match_access_grant_objects_sound x d now objects name why matched) named source

  eval_sound :
      (s s₀ : Checker cel.Program) (d : Decision) (now : ℕ) (a : Admitted) (seen : CelInput)
      (text : String) (p : cel.Program) (value : Option Bool)
      → d.allow ≡ false
      → cel.eval p seen ≡ value
      → (program_for cel
          (program_key
            (resolved_uid a.assignment.status.resolved)
            d.capability_bundle_revision
            seen.backend)
          text
          s₀.programs).1
        ≡ ok p
      → (after_eval x cel view s d now value).1.allow ≡ true
      → Authority s₀ d now a seen (expression text) (after_eval x cel view s d now value).1
  unfolding after_eval
  eval_sound s s₀ d now a seen text p none closed value found allowed = cc
  eval_sound s s₀ d now a seen text p (some true) closed value found allowed =
      by_bundle text p refl found value refl
  eval_sound s s₀ d now a seen text p (some false) closed value found allowed =
      grants_sound s s₀ d "backend allow expression returned false" now a seen (expression text)
        closed allowed

  program_sound :
      (s s₀ : Checker cel.Program) (d : Decision) (now : ℕ) (a : Admitted) (seen : CelInput)
      (text : String) (r : Result cel.Program)
      → d.allow ≡ false
      → (program_for cel
          (program_key
            (resolved_uid a.assignment.status.resolved)
            d.capability_bundle_revision
            seen.backend)
          text
          s₀.programs).1
        ≡ r
      → (after_program x cel view s d now seen r).1.allow ≡ true
      → Authority s₀ d now a seen (expression text) (after_program x cel view s d now seen r).1
  unfolding after_program
  program_sound s s₀ d now a seen text (err e) closed found allowed = cc
  program_sound s s₀ d now a seen text (ok p) closed found allowed =
      eval_sound s s₀ d now a seen text p (cel.eval p seen) closed refl found allowed

  pub evaluate_sound :
      (s : Checker cel.Program) (d : Decision) (now : ℕ) (a : Admitted) (seen : CelInput)
      (f : AllowField)
      → d.allow ≡ false
      → (evaluate x cel view s d now a seen f).1.allow ≡ true
      → Authority s d now a seen f (evaluate x cel view s d now a seen f).1
  unfolding evaluate
  evaluate_sound s d now a seen ill_typed closed allowed = cc
  evaluate_sound s d now a seen absent closed allowed =
      grants_sound s s d "backend is not granted" now a seen absent closed allowed
  evaluate_sound s d now a seen (expression text) closed allowed =
      elim (Bool-cases (is_empty text)) [
        | inl empty ↦ absurd (cc (rw empty at allowed))
        | inr filled ↦ rw filled (
            program_sound
              (record s {
                programs =
                    (program_for cel
                      (program_key (resolved_uid a.assignment.status.resolved)
                        d.capability_bundle_revision seen.backend)
                      text s.programs).0;
              })
              s d now a seen text _ closed refl (rw filled at allowed))
      ]
