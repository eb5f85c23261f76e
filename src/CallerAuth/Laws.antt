-- ===== src/CallerAuth/Laws.antt =====
-- Who a request to the facade is served for.
use opensandbox_aks_governan.Base.{
  String, true, false, Option, none, some, List, [], ◌∷◌, ◌≡◌, ◌≢◌, refl, ap, ◌∙◌, arith, contains,
  string_eq, if◌then◌else◌, Result, ok, err, Bool-cases, inl, inr,
}
use opensandbox_aks_governan.CallerAuth.{
  Review, Binding, Answers, bearer_token, service_account_identity, binds, match_bindings,
  some_tenant, matched_tenants, listed_tenants, service_account_tenants, Served, answered, served,
  tenants_answer, identified, unaudited, reviewed, with_token, middleware, authorize_tenant,
}

-- The active bindings of a service account.
abbrev pub bindings_of : String → String → List Binding → List Binding
bindings_of namespace name [] = []
bindings_of namespace name (b ∷ rest) =
    let found = bindings_of namespace name rest in
    if binds namespace name b then b ∷ found else found

-- A caller that proved to be a service account with exactly one active binding.
pub record IsCaller (a : Answers) (header : String) (r : Review) (list : List Binding) (b : Binding)
    : Type 0 where
  pub token : String
  pub presented : bearer_token header ≡ some token
  pub reviewed_as : a.review token ≡ ok r
  pub authenticated : r.authenticated ≡ true
  pub for_audience : r.audiences ≢ []
  pub namespace : String
  pub name : String
  pub identity : service_account_identity r.username ≡ some (namespace, name)
  pub listed : a.bindings ≡ ok list
  pub only : bindings_of namespace name list ≡ b ∷ []

served_tenants : Served → List String
served_tenants (answered _) = []
served_tenants (served tenants) = tenants

served-injective : {l m : List String} → served l ≡ served m → l ≡ m
unfolding served_tenants
served-injective h = ap served_tenants h

module _ (namespace name : String) where
  after_match :
      (matched : List String) (list : List Binding) (out : Option (List String))
      → match_bindings namespace name (some matched) list ≡ ok out
      → (bindings_of namespace name list ≡ []) × (out ≡ some matched)
  after_match matched [] out h = (refl, cc)
  after_match matched (b ∷ rest) out h = elim (Bool-cases (binds namespace name b)) [
    | inl found ↦ absurd (ground (arith))
    | inr other ↦ rw other (after_match matched rest out (ground (arith)))
  ]

  matched-only :
      (list : List Binding) (tenants : List String)
      → match_bindings namespace name none list ≡ ok (some tenants)
      → (b : Binding) × (bindings_of namespace name list ≡ b ∷ []) × (b.tenants ≡ tenants)
  matched-only [] tenants h = absurd (cc)
  matched-only (b ∷ rest) tenants h = elim (Bool-cases (binds namespace name b)) [
    | inl found ↦
        let (none_left, same) = after_match b.tenants rest (some tenants) (ground (arith)) in
        (b, ground (arith), cc)
    | inr other ↦
        let (one, only, same) = matched-only rest tenants (ground (arith)) in
        (one, ground (arith), same)
  ]

  tenants-only :
      (matched : Option (List String)) (list : List Binding) (tenants : List String)
      → match_bindings namespace name none list ≡ ok matched
      → some_tenant matched ≡ ok tenants
      → (b : Binding) × (bindings_of namespace name list ≡ b ∷ []) × (b.tenants ≡ tenants)
  tenants-only none list tenants e h = absurd (cc)
  tenants-only (some []) list tenants e h = absurd (cc)
  tenants-only (some (t ∷ rest)) list tenants e h =
      let (b, only, same) = matched-only list (t ∷ rest) e in (b, only, cc)

  listed-only :
      (answer : Result (List Binding)) (tenants : List String)
      → listed_tenants namespace name answer ≡ ok tenants
      → (list : List Binding) × (b : Binding) × (answer ≡ ok list)
        × (bindings_of namespace name list ≡ b ∷ [])
        × (b.tenants ≡ tenants)
  listed-only (err e) tenants h = absurd (cc)
  listed-only (ok list) tenants h = from (match_bindings namespace name none list) refl h
    where
      from :
          (found : Result (Option (List String)))
          → match_bindings namespace name none list ≡ found
          → matched_tenants found ≡ ok tenants
          → (l : List Binding) × (b : Binding) × (ok list ≡ ok l)
            × (bindings_of namespace name l ≡ b ∷ [])
            × (b.tenants ≡ tenants)
      from (err e) k g = absurd (cc)
      from (ok matched) k g =
          let (b, only, same) = tenants-only matched list tenants k g in (list, b, refl, only, same)

module _ (a : Answers) (header : String) where
  identified-IsCaller :
      (token : String) (r : Review) (who : Option (String × String)) (tenants : List String)
      → bearer_token header ≡ some token
      → a.review token ≡ ok r
      → unaudited a r ≡ false
      → service_account_identity r.username ≡ who
      → identified a who ≡ served tenants
      → (list : List Binding) × (b : Binding) × IsCaller a header r list b × (b.tenants ≡ tenants)
  unfolding service_account_tenants
  identified-IsCaller token r none tenants given answer audited named h = absurd (cc)
  identified-IsCaller token r (some (namespace, name)) tenants given answer audited named h =
      from (service_account_tenants a namespace name) refl h
    where
      from :
          (found : Result (List String))
          → service_account_tenants a namespace name ≡ found
          → tenants_answer a found ≡ served tenants
          → (list : List Binding) × (b : Binding) × IsCaller a header r list b
            × (b.tenants ≡ tenants)
      from (err e) k g = absurd (cc)
      from (ok values) k g =
          let (list, b, listed, only, same) = listed-only namespace name a.bindings values k in
          (
            list,
            b,
            record {
              token = token;
              presented = given;
              reviewed_as = answer;
              authenticated = ground (arith);
              for_audience = λ e. absurd (ground (arith));
              namespace = namespace;
              name = name;
              identity = named;
              listed = listed;
              only = only;
            },
            same ∙ served-injective g,
          )

  reviewed-IsCaller :
      (token : String) (answer : Result Review) (tenants : List String)
      → bearer_token header ≡ some token
      → a.review token ≡ answer
      → reviewed a answer ≡ served tenants
      → (r : Review) × (list : List Binding) × (b : Binding) × IsCaller a header r list b
        × (b.tenants ≡ tenants)
  reviewed-IsCaller token (err e) tenants given there h = absurd (cc)
  reviewed-IsCaller token (ok r) tenants given there h = elim (Bool-cases (unaudited a r)) [
    | inl bad ↦ absurd (ground (arith))
    | inr audited ↦
        let (list, b, caller, same) =
          identified-IsCaller token r (service_account_identity r.username) tenants given there
            audited refl (ground (arith)) in
        (r, list, b, caller, same)
  ]

  -- A request that the middleware serves and whose context then allows a tenant carried a bearer token
  -- that was reviewed, for the audience, as that of a service account which has exactly one active
  -- principal binding; that binding lists the tenant.
  pub middleware-authorize_tenant :
      (tenants : List String) (tenant : String)
      → middleware a header ≡ served tenants
      → authorize_tenant (some tenants) tenant ≡ ok tt
      → (r : Review) × (list : List Binding) × (b : Binding) × IsCaller a header r list b
        × (contains b.tenants tenant ≡ true)
  unfolding middleware authorize_tenant
  middleware-authorize_tenant tenants tenant h allowed = from (bearer_token header) refl h
    where
      from :
          (token : Option String)
          → bearer_token header ≡ token
          → with_token a token ≡ served tenants
          → (r : Review) × (list : List Binding) × (b : Binding) × IsCaller a header r list b
            × (contains b.tenants tenant ≡ true)
      from none given g = absurd (cc)
      from (some token) given g =
          let (r, list, b, caller, same) =
            reviewed-IsCaller token (a.review token) tenants given refl g in
          (r, list, b, caller, ap (λ l. contains l tenant) same ∙ ground (arith))
