-- ===== src/Dashboard/Bindings.antt =====
-- cmd/aks-sandbox-dashboard/principals.go: the one active binding of a principal.
use opensandbox_aks_governan.Base.{
  true, false, not, ◌&&◌, Option, none, some, List, [], ◌∷◌, ◌≡◌, refl, sym, ap, subst, arith,
  eq_iff, string_eq, inl, inr, Bool-cases, is_empty, Result, ok, err, Alone, NoneOf, none_here,
  none_more, here, later,
}
use opensandbox_aks_governan.Dashboard.Principals.{
  AuthenticatedIdentity, PrincipalBinding, PrincipalTenantScopes, known_identity, binds_principal,
  match_principal, scopes_of, load_principal_scopes,
}

-- A binding that is not being deleted, for the identity's tenant and object.
pub record IsBindingOf (identity : AuthenticatedIdentity) (b : PrincipalBinding) : Type 0 where
  pub live : b.deleting ≡ false
  pub tenant : b.tenant_id ≡ identity.tenant_id
  pub object : b.object_id ≡ identity.object_id

-- Exactly one of the listed bindings is the identity's, and it gives these tenants to request access
-- for and to administer.
pub record IsBound (bindings : Result (List (Result PrincipalBinding)))
    (identity : AuthenticatedIdentity) (scopes : PrincipalTenantScopes) : Type 0 where
  pub list : List (Result PrincipalBinding)
  pub listed : bindings ≡ ok list
  pub binding : PrincipalBinding
  pub alone : Alone (IsBindingOf identity) list binding
  pub requester : scopes.requester ≡ binding.requester_tenants
  pub admin : scopes.admin ≡ binding.admin_tenants

-- An identity with both of its IDs.
pub record IsKnown (who : Option AuthenticatedIdentity) (identity : AuthenticatedIdentity)
    : Type 0 where
  pub given : who ≡ some identity
  pub tenant_set : is_empty identity.tenant_id ≡ false
  pub object_set : is_empty identity.object_id ≡ false

pub known_identity-IsKnown :
    (who : Option AuthenticatedIdentity) (identity : AuthenticatedIdentity)
    → known_identity who ≡ some identity
    → IsKnown who identity
known_identity-IsKnown none identity h = cc
known_identity-IsKnown (some i) identity h =
    elim (Bool-cases (not (is_empty i.tenant_id) && not (is_empty i.object_id))) [
      | inl good ↦
          let same : some i ≡ some identity = rw good at h in
          subst (IsKnown (some i)) (same_identity same)
            (record { given = refl; tenant_set = ground (arith); object_set = ground (arith) })
      | inr bad ↦ absurd (cc (rw bad at h))
    ]
  where
    same_identity : {a b : AuthenticatedIdentity} → some a ≡ some b → a ≡ b
    same_identity e = cc

module _ (identity : AuthenticatedIdentity) where
  binds-IsBindingOf :
      (b : PrincipalBinding) → binds_principal identity b ≡ true → IsBindingOf identity b
  binds-IsBindingOf b h = record {
    live = ground (arith);
    tenant = ground (arith, eq_iff b.tenant_id identity.tenant_id);
    object = ground (arith, eq_iff b.object_id identity.object_id);
  }

  not-IsBindingOf :
      (b : PrincipalBinding) → binds_principal identity b ≡ false → ¬ IsBindingOf identity b
  not-IsBindingOf b h i = ground (
    arith,
    eq_iff b.tenant_id identity.tenant_id,
    eq_iff b.object_id identity.object_id,
    i.live,
    i.tenant,
    i.object,
  )

  match-rest :
      (list : List (Result PrincipalBinding)) (matched b : PrincipalBinding)
      → match_principal identity (some matched) list ≡ ok (some b)
      → (matched ≡ b) × NoneOf (IsBindingOf identity) list
  match-rest [] matched b h = (same_binding h, none_here)
    where
      same_binding : {a c : PrincipalBinding} → ok (some a) ≡ ok (some c) → a ≡ c
      same_binding e = cc
  match-rest (err e ∷ rest) matched b h = cc
  match-rest (ok c ∷ rest) matched b h = elim (Bool-cases (binds_principal identity c)) [
    | inl again ↦ absurd (cc (rw again at h))
    | inr other ↦
        let (same, none_left) = match-rest rest matched b (rw other at h) in
        (same, none_more (not-IsBindingOf c other) none_left)
  ]

  match-Alone :
      (list : List (Result PrincipalBinding)) (b : PrincipalBinding)
      → match_principal identity none list ≡ ok (some b)
      → Alone (IsBindingOf identity) list b
  match-Alone [] b h = absurd (ground (arith))
  match-Alone (err e ∷ rest) b h = cc
  match-Alone (ok c ∷ rest) b h = elim (Bool-cases (binds_principal identity c)) [
    | inl mine ↦
        let (same, none_left) = match-rest rest c b (rw mine at h) in
        subst (λ z. Alone (IsBindingOf identity) (ok c ∷ rest) z) same
          (here (binds-IsBindingOf c mine) none_left)
    | inr other ↦ later (not-IsBindingOf c other) (match-Alone rest b (rw other at h))
  ]

  scopes_of-binding :
      (found : Result (Option PrincipalBinding)) (scopes : PrincipalTenantScopes)
      → scopes_of found ≡ ok scopes
      → (b : PrincipalBinding) × (found ≡ ok (some b))
        × (scopes.requester ≡ b.requester_tenants)
        × (scopes.admin ≡ b.admin_tenants)
  scopes_of-binding (err e) scopes h = cc
  scopes_of-binding (ok none) scopes h = cc
  scopes_of-binding (ok (some b)) scopes h =
      let same = same_scopes h in
      (b, refl, ap (λ s. s.requester) (sym same), ap (λ s. s.admin) (sym same))
    where
      same_scopes : {a c : PrincipalTenantScopes} → ok a ≡ ok c → a ≡ c
      same_scopes e = cc

  pub load_principal_scopes-IsBound :
      (bindings : Result (List (Result PrincipalBinding))) (scopes : PrincipalTenantScopes)
      → load_principal_scopes bindings identity ≡ ok scopes
      → IsBound bindings identity scopes
  unfolding load_principal_scopes
  load_principal_scopes-IsBound (err e) scopes h = cc
  load_principal_scopes-IsBound (ok list) scopes h =
      let (b, found, requester, admin) =
        scopes_of-binding (match_principal identity none list) scopes h in
      record {
        list = list;
        listed = refl;
        binding = b;
        alone = match-Alone list b found;
        requester = requester;
        admin = admin;
      }
