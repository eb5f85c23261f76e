-- ===== src/Admission/Policies.antt =====
-- The one policy of a tenant among the policies that the API server lists.
use opensandbox_aks_governan.Base.{
  String, true, false, List, [], ◌∷◌, ◌≡◌, refl, subst, arith, eq_iff, string_eq, inl, inr,
  Bool-cases, Result, ok, err, Alone, NoneOf, none_here, none_more, here, later,
}
use opensandbox_aks_governan.Api.{SandboxTenantPolicy}
use opensandbox_aks_governan.Admission.{applies, add_match, matching}

-- A policy that is enabled, is for this tenant, and is not being deleted.
pub record IsPolicyOf (tenant : String) (p : SandboxTenantPolicy) : Type 0 where
  pub enabled : p.spec.enabled ≡ true
  pub its_tenant : p.spec.logical_tenant ≡ tenant
  pub live : p.deleting ≡ false

module _ (tenant : String) where
  applies-IsPolicyOf : (p : SandboxTenantPolicy) → applies tenant p ≡ true → IsPolicyOf tenant p
  applies-IsPolicyOf p h = record {
    enabled = ground (arith);
    its_tenant = ground (arith, eq_iff p.spec.logical_tenant tenant);
    live = ground (arith);
  }

  not-IsPolicyOf : (p : SandboxTenantPolicy) → applies tenant p ≡ false → ¬ IsPolicyOf tenant p
  not-IsPolicyOf p h i =
      ground (arith, eq_iff p.spec.logical_tenant tenant, i.enabled, i.its_tenant, i.live)

  matching-cons :
      (p : SandboxTenantPolicy) (found : Result (List SandboxTenantPolicy))
      (ps : List SandboxTenantPolicy)
      → applies tenant p ≡ false
      → add_match tenant p found ≡ ok ps
      → found ≡ ok ps
  matching-cons p (err e) ps other h = h
  matching-cons p (ok rest) ps other h = rw other at h

  matching-first :
      (p q : SandboxTenantPolicy) (found : Result (List SandboxTenantPolicy))
      → applies tenant p ≡ true
      → add_match tenant p found ≡ ok (q ∷ [])
      → (p ≡ q) × (found ≡ ok [])
  matching-first p q (err e) good h = cc
  matching-first p q (ok []) good h = (ground (arith), refl)
  matching-first p q (ok (_ ∷ _)) good h = absurd (ground (arith))

  matching-none :
      (p : SandboxTenantPolicy) (found : Result (List SandboxTenantPolicy))
      → applies tenant p ≡ true
      → add_match tenant p found ≡ ok []
      → ⊥
  matching-none p (err e) good h = cc
  matching-none p (ok rest) good h = cc (rw good at h)

  matching-NoneOf :
      (list : List (Result SandboxTenantPolicy))
      → matching tenant list ≡ ok []
      → NoneOf (IsPolicyOf tenant) list
  unfolding matching
  matching-NoneOf [] h = none_here
  matching-NoneOf (err e ∷ rest) h = cc
  matching-NoneOf (ok p ∷ rest) h = elim (Bool-cases (applies tenant p)) [
    | inl good ↦ absurd (matching-none p (matching tenant rest) good h)
    | inr other ↦
        none_more (not-IsPolicyOf p other)
          (matching-NoneOf rest (matching-cons p (matching tenant rest) [] other h))
  ]

  pub matching-Alone :
      (list : List (Result SandboxTenantPolicy)) (q : SandboxTenantPolicy)
      → matching tenant list ≡ ok (q ∷ [])
      → Alone (IsPolicyOf tenant) list q
  unfolding matching
  matching-Alone [] q h = absurd (ground (arith))
  matching-Alone (err e ∷ rest) q h = cc
  matching-Alone (ok p ∷ rest) q h = elim (Bool-cases (applies tenant p)) [
    | inl good ↦
        let (same, none_left) = matching-first p q (matching tenant rest) good h in
        subst (λ z. Alone (IsPolicyOf tenant) (ok p ∷ rest) z) same
          (here (applies-IsPolicyOf p good) (matching-NoneOf rest none_left))
    | inr other ↦
        later (not-IsPolicyOf p other)
          (matching-Alone rest q (matching-cons p (matching tenant rest) (q ∷ []) other h))
  ]
