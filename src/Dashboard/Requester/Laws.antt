-- ===== src/Dashboard/Requester/Laws.antt =====
-- Whom the requester's authorization lets through.
use opensandbox_aks_governan.Base.{
  String, true, Option, none, some, List, [], ◌∷◌, ◌≡◌, refl, ap, ◌∙◌, inl, inr, keep, Bool-cases,
  Result, ok, err, string_eq,
}
use opensandbox_aks_governan.Cluster.{AssignmentObject}
use opensandbox_aks_governan.Dashboard.Principals.{
  AuthenticatedIdentity, PrincipalTenantScopes, known_identity, load_principal_scopes,
  tenant_allowed,
}
use opensandbox_aks_governan.Dashboard.Requester.{
  unauthorized, Authorized, denied, granted, Lookup, found, unbound, failed, Answers,
  requester_scopes, requester_tenants, names_sandbox, match_sandbox, assignment_for_sandbox_id,
  tenant_of, allowed_in, sandbox_allowed, require_allowed, with_tenants, authorize_sandbox,
}

-- The objects of a list that convert.
abbrev pub readable : List (Result AssignmentObject) → List AssignmentObject
readable [] = []
readable (err e ∷ rest) = readable rest
readable (ok o ∷ rest) = o ∷ readable rest

module _ (a : Answers) (id : String) where
  found_injective : {o p : AssignmentObject} → found o ≡ found p → o ≡ p
  found_injective h = cc

  match_sandbox-rest :
      (list : List (Result AssignmentObject)) (matched o : AssignmentObject)
      → match_sandbox a id (some matched) list ≡ found o
      → (matched ≡ o) × (keep (names_sandbox a id) (readable list) ≡ [])
  unfolding match_sandbox
  match_sandbox-rest [] matched o h = (found_injective h, refl)
  match_sandbox-rest (err e ∷ rest) matched o h = cc
  match_sandbox-rest (ok p ∷ rest) matched o h = elim (Bool-cases (names_sandbox a id p)) [
    | inl named ↦ absurd (cc (rw named at h))
    | inr other ↦
        let (same, none_left) = match_sandbox-rest rest matched o (rw other at h) in
        (same, rw other none_left)
  ]

  -- The assignment that is found for a sandbox is the only one that is not being deleted and names the
  -- sandbox in its annotation or its label.
  pub match_sandbox_unique :
      (list : List (Result AssignmentObject)) (o : AssignmentObject)
      → match_sandbox a id none list ≡ found o
      → keep (names_sandbox a id) (readable list) ≡ o ∷ []
  unfolding match_sandbox
  match_sandbox_unique [] o h = cc
  match_sandbox_unique (err e ∷ rest) o h = cc
  match_sandbox_unique (ok p ∷ rest) o h = elim (Bool-cases (names_sandbox a id p)) [
    | inl named ↦
        let (same, none_left) = match_sandbox-rest rest p o (rw named at h) in
        rw (named, none_left) (ap (λ z. z ∷ []) same)
    | inr other ↦ rw other (match_sandbox_unique rest o (rw other at h))
  ]

module _ (a : Answers) (who : Option AuthenticatedIdentity) where
  -- A requester with the tenants of the one active binding of an identity.
  pub record IsRequester (tenants : List String) : Type 0 where
    pub identity : AuthenticatedIdentity
    pub scopes : PrincipalTenantScopes
    pub known : known_identity who ≡ some identity
    pub bound : load_principal_scopes a.bindings identity ≡ ok scopes
    pub theirs : scopes.requester ≡ tenants

  requester_scopes-granted :
      (answer : Result PrincipalTenantScopes) (tenants : List String)
      → requester_scopes answer ≡ granted tenants
      → (scopes : PrincipalTenantScopes) × (answer ≡ ok scopes) × (scopes.requester ≡ tenants)
  requester_scopes-granted (err e) tenants h = cc
  requester_scopes-granted (ok scopes) tenants h = from scopes.requester refl
    where
      granted_is : {s t : List String} → granted s ≡ granted t → s ≡ t
      granted_is k = cc

      from :
          (list : List String)
          → scopes.requester ≡ list
          → (s : PrincipalTenantScopes) × (ok scopes ≡ ok s) × (s.requester ≡ tenants)
      from [] same = absurd (cc (rw same at h))
      from (t ∷ rest) same = (scopes, refl, same ∙ granted_is (rw same at h))

  pub requester_tenants-IsRequester :
      (tenants : List String) → requester_tenants a who ≡ granted tenants → IsRequester tenants
  unfolding requester_tenants
  requester_tenants-IsRequester tenants h = from (known_identity who) refl h
    where
      from :
          (known : Option AuthenticatedIdentity)
          → known_identity who ≡ known
          → elim known [
            | none ↦ denied unauthorized
            | some identity ↦ requester_scopes (load_principal_scopes a.bindings identity)
          ]
            ≡ granted tenants
          → IsRequester tenants
      from none same k = cc
      from (some identity) same k =
          let (scopes, bound, theirs) =
            requester_scopes-granted (load_principal_scopes a.bindings identity) tenants k in
          record {
            identity = identity;
            scopes = scopes;
            known = same;
            bound = bound;
            theirs = theirs;
          }

  -- A sandbox of one of the requester's tenants, by the only assignment that names it.
  pub record IsOwnSandbox (id : String) : Type 0 where
    pub tenants : List String
    pub requester : IsRequester tenants
    pub list : List (Result AssignmentObject)
    pub assignment : AssignmentObject
    pub tenant : String
    pub listed : a.assignments ≡ ok list
    pub only : keep (names_sandbox a id) (readable list) ≡ assignment ∷ []
    pub of_tenant : tenant_of a (found assignment) ≡ found tenant
    pub allowed : tenant_allowed tenants tenant ≡ true

  found_assignment :
      (id : String) (tenant : String) (list : List (Result AssignmentObject))
      (o : Lookup AssignmentObject)
      → match_sandbox a id none list ≡ o
      → tenant_of a o ≡ found tenant
      → (assignment : AssignmentObject) × (keep (names_sandbox a id) (readable list)
          ≡ assignment ∷ [])
        × (tenant_of a (found assignment) ≡ found tenant)
  found_assignment id tenant list (found o) h k = (o, match_sandbox_unique a id list o h, k)
  found_assignment id tenant list unbound h k = cc
  found_assignment id tenant list failed h k = cc

  listed_assignment :
      (id : String) (tenant : String) (answer : Result (List (Result AssignmentObject)))
      → tenant_of a (elim answer [ err e ↦ failed | ok list ↦ match_sandbox a id none list ])
        ≡ found tenant
      → (list : List (Result AssignmentObject)) × (assignment : AssignmentObject) × (answer
          ≡ ok list)
        × (keep (names_sandbox a id) (readable list) ≡ assignment ∷ [])
        × (tenant_of a (found assignment) ≡ found tenant)
  listed_assignment id tenant (err e) h = cc
  listed_assignment id tenant (ok list) h =
      let (assignment, only, of_tenant) =
        found_assignment id tenant list (match_sandbox a id none list) refl h in
      (list, assignment, refl, only, of_tenant)

  allowed_tenant :
      (tenants : List String) (lookup : Lookup String)
      → require_allowed a (allowed_in a tenants lookup) ≡ granted tt
      → (tenant : String) × (lookup ≡ found tenant) × (tenant_allowed tenants tenant ≡ true)
  allowed_tenant tenants (found tenant) h = elim (Bool-cases (tenant_allowed tenants tenant)) [
    | inl good ↦ (tenant, refl, good)
    | inr bad ↦ absurd (cc (rw bad at h))
  ]
  allowed_tenant tenants unbound h = cc
  allowed_tenant tenants failed h = cc

  -- A requester is let through to a sandbox only if exactly one live assignment names it, and its
  -- tenant, or its bundle's, is one of the requester's own.
  pub authorize_sandbox-IsOwnSandbox :
      (id : String) → authorize_sandbox a who id ≡ granted tt → IsOwnSandbox id
  unfolding authorize_sandbox sandbox_allowed
  authorize_sandbox-IsOwnSandbox id h = from (requester_tenants a who) refl h
    where
      from :
          (answer : Authorized (List String))
          → requester_tenants a who ≡ answer
          → with_tenants a answer (λ tenants. require_allowed a (sandbox_allowed a tenants id))
            ≡ granted tt
          → IsOwnSandbox id
      from (denied d) same k = absurd (cc)
      from (granted tenants) same k =
          let (tenant, looked, allowed) =
            allowed_tenant tenants (tenant_of a (assignment_for_sandbox_id a id)) k in
          let (list, assignment, listed, only, of_tenant) =
            listed_assignment id tenant a.assignments looked in
          record {
            tenants = tenants;
            requester = requester_tenants-IsRequester tenants same;
            list = list;
            assignment = assignment;
            tenant = tenant;
            listed = listed;
            only = only;
            of_tenant = of_tenant;
            allowed = allowed;
          }
