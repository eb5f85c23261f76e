-- ===== src/CallerAuth.antt =====
-- internal/assignment/callerauth/authenticator.go. What the API server answers, to a token review and
-- to the list of the principal bindings, is an argument; the tenants of a request's context are those
-- of `Served`, or none where the middleware did not run.
pub mod Laws
use opensandbox_aks_governan.Base.{
  ℕ, ◌+◌, equal_by, String, Bool, true, false, not, ◌&&◌, ◌||◌, Option, none, some, List, [], ◌∷◌,
  contains, break_at, cut_prefix, has_char, map_chars, trim_space, if◌then◌else◌, ◌==◌, string_eq,
  is_empty, Error, message, Result, ok, err,
}
use opensandbox_aks_governan.Externals.{is_upper}

-- `TokenReviewStatus`, as far as it is read.
pub record Review : Type 0 where
  pub authenticated : Bool
  pub audiences : List String
  pub username : String

-- A `SandboxPrincipalBinding` of the namespace.
pub record Binding : Type 0 where
  pub deleting : Bool
  pub namespace : String
  pub name : String
  pub tenants : List String

pub record Answers : Type 0 where
  pub review : String → Result Review
  pub bindings : Result (List Binding)

abbrev pub folded : ℕ → ℕ
folded c = if is_upper c then c + 32 else c

-- `strings.EqualFold` with a text whose letters have no other case variants than the ASCII ones.
abbrev pub equal_fold : String → String → Bool
equal_fold s t = equal_by folded s t

-- Parts of a text that `strings.Cut` found, in a form that the code accepts.
abbrev pub bearer_parts : Option (String × String) → Option String
bearer_parts none = none
bearer_parts (some (scheme, token)) =
    if equal_fold scheme "Bearer" && not (is_empty token) && not (has_char b' ' token)
    then some token
    else none

unfoldable pub bearer_token : String → Option String
bearer_token value = bearer_parts (break_at b' ' (trim_space value))

abbrev pub identity_parts : Option (String × String) → Option (String × String)
identity_parts none = none
identity_parts (some (namespace, name)) =
    if not (is_empty namespace) && not (is_empty name) && not (has_char b':' name)
    then some (namespace, name)
    else none

abbrev pub after_prefix : Option String → Option (String × String)
after_prefix none = none
after_prefix (some value) = identity_parts (break_at b':' value)

unfoldable pub service_account_identity : String → Option (String × String)
service_account_identity username = after_prefix (cut_prefix "system:serviceaccount:" username)

-- A binding that is active and names the service account.
abbrev pub binds : String → String → Binding → Bool
binds namespace name b = not b.deleting && b.namespace == namespace && b.name == name

-- The loop over the bindings, with the tenants matched so far.
abbrev pub match_bindings :
    String → String → Option (List String) → List Binding → Result (Option (List String))
match_bindings namespace name matched [] = ok matched
match_bindings namespace name none (b ∷ rest) =
    let here = match_bindings namespace name (some b.tenants) rest in
    let later = match_bindings namespace name none rest in
    if binds namespace name b then here else later
match_bindings namespace name (some matched) (b ∷ rest) =
    let later = match_bindings namespace name (some matched) rest in
    if binds namespace name b
    then err (message "service account must have exactly one active principal binding")
    else later

abbrev pub some_tenant : Option (List String) → Result (List String)
some_tenant none = err (message "service account has no authorized logical tenant")
some_tenant (some []) = err (message "service account has no authorized logical tenant")
some_tenant (some (t ∷ rest)) = ok (t ∷ rest)

abbrev pub matched_tenants : Result (Option (List String)) → Result (List String)
matched_tenants (err e) = err e
matched_tenants (ok matched) = some_tenant matched

abbrev pub listed_tenants : String → String → Result (List Binding) → Result (List String)
listed_tenants namespace name (err e) = err e
listed_tenants namespace name (ok list) = matched_tenants (match_bindings namespace name none list)

unfoldable pub service_account_tenants : Answers → String → String → Result (List String)
service_account_tenants a namespace name = listed_tenants namespace name a.bindings

-- The middleware answers with a status, or serves the request with tenants in its context.
pub data Served : Type 0 where
  answered : ℕ → Served
  served : List String → Served

module _ (a : Answers) where
  abbrev pub tenants_answer : Result (List String) → Served
  tenants_answer (err _) = answered 403
  tenants_answer (ok tenants) = served tenants

  abbrev pub identified : Option (String × String) → Served
  identified none = answered 403
  identified (some (namespace, name)) = tenants_answer (service_account_tenants a namespace name)

  abbrev pub unaudited : Review → Bool
  unaudited r = not r.authenticated || (elim r.audiences [ [] ↦ true | _ ∷ _ ↦ false ])

  abbrev pub reviewed : Result Review → Served
  reviewed (err _) = answered 503
  reviewed (ok r) =
      let known = identified (service_account_identity r.username) in
      if unaudited r then answered 401 else known

  abbrev pub with_token : Option String → Served
  with_token none = answered 401
  with_token (some token) = reviewed (a.review token)

  unfoldable pub middleware : String → Served
  middleware header = with_token (bearer_token header)

-- `AuthorizeTenant`: none where there are no tenants in the context.
unfoldable pub authorize_tenant : Option (List String) → String → Result (Unit {0})
authorize_tenant none tenant = err (message "caller identity is unavailable")
authorize_tenant (some tenants) tenant =
    if contains tenants tenant
    then ok tt
    else err (message "caller is not authorized for the logical tenant")
