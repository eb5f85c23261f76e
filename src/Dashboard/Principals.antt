-- ===== src/Dashboard/Principals.antt =====
-- cmd/aks-sandbox-dashboard/principals.go, and the identity of auth.go's request context. A list of
-- bindings and whether each converts is what the API server answers.
use opensandbox_aks_governan.Base.{
  ℕ, String, Bool, false, not, ◌&&◌, Option, none, some, List, [], ◌∷◌, contains, if◌then◌else◌,
  ◌==◌, string_eq, is_empty, message, Result, ok, err,
}

pub record AuthenticatedIdentity : Type 0 where
  pub tenant_id : String
  pub object_id : String
  pub name : String
  pub roles : List String
  pub scopes : List String
  pub expires_at : ℕ

-- `SandboxPrincipalBinding`.
pub record PrincipalBinding : Type 0 where
  pub deleting : Bool
  pub tenant_id : String
  pub object_id : String
  pub requester_tenants : List String
  pub admin_tenants : List String

pub record PrincipalTenantScopes : Type 0 where
  pub requester : List String
  pub admin : List String

-- `authenticatedIdentityFromContext`: an identity without its two IDs is none.
abbrev pub known_identity : Option AuthenticatedIdentity → Option AuthenticatedIdentity
known_identity none = none
known_identity (some identity) =
    if not (is_empty identity.tenant_id) && not (is_empty identity.object_id)
    then some identity
    else none

abbrev pub binds_principal : AuthenticatedIdentity → PrincipalBinding → Bool
binds_principal identity b =
    not b.deleting && b.tenant_id == identity.tenant_id && b.object_id == identity.object_id

-- The loop over the bindings, with the one matched so far.
abbrev pub match_principal :
    AuthenticatedIdentity
    → Option PrincipalBinding
    → List (Result PrincipalBinding)
    → Result (Option PrincipalBinding)
match_principal identity matched [] = ok matched
match_principal identity matched (err e ∷ rest) = err e
match_principal identity none (ok b ∷ rest) =
    let here = match_principal identity (some b) rest in
    let later = match_principal identity none rest in
    if binds_principal identity b then here else later
match_principal identity (some matched) (ok b ∷ rest) =
    let later = match_principal identity (some matched) rest in
    if binds_principal identity b
    then err (message "principal must have exactly one active binding")
    else later

abbrev pub scopes_of : Result (Option PrincipalBinding) → Result PrincipalTenantScopes
scopes_of (err e) = err e
scopes_of (ok none) = err (message "authenticated principal has no sandbox tenant binding")
scopes_of (ok (some b)) = ok (record { requester = b.requester_tenants; admin = b.admin_tenants })

abbrev pub listed_scopes :
    AuthenticatedIdentity → Result (List (Result PrincipalBinding)) → Result PrincipalTenantScopes
listed_scopes identity (err e) = err e
listed_scopes identity (ok list) = scopes_of (match_principal identity none list)

unfoldable pub load_principal_scopes :
    Result (List (Result PrincipalBinding)) → AuthenticatedIdentity → Result PrincipalTenantScopes
load_principal_scopes bindings identity = listed_scopes identity bindings

-- The scopes of a principal are not nil.
abbrev pub tenant_allowed : List String → String → Bool
tenant_allowed tenants tenant = contains tenants tenant

-- `err != nil || !tenantAllowed(scopes.admin, tenant)`, negated.
abbrev pub administers : Result PrincipalTenantScopes → String → Bool
administers (err e) tenant = false
administers (ok scopes) tenant = tenant_allowed scopes.admin tenant
