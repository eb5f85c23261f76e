-- ===== src/Dashboard/Forms/Mutations.antt =====
-- cmd/aks-sandbox-dashboard/governance.go: what `parseMutation` lets pass.
use opensandbox_aks_governan.Base.{
  String, Bool, true, false, not, ◌&&◌, ◌||◌, ◌==◌, string_eq, eq_iff, is_empty, Option, none, some,
  List, [], ◌∷◌, ◌≡◌, refl, ap, subst, ◌∙◌, ok, arith, All, any, contains, find_key,
}
use opensandbox_aks_governan.Externals.{Externals}
use opensandbox_aks_governan.Facade.Lifecycle.{reply}
use opensandbox_aks_governan.Dashboard.Handled.{
  passed, attempt, >>=-eq-passed, demand-eq-passed, attempt-eq-passed, passed-injective,
}
use opensandbox_aks_governan.Dashboard.Forms.{
  Mutation, Form, form_value, is_single, all_single, csrf_matches, content_type, parse_mutation,
}

-- A field that the handler knows, with one value.
abbrev pub IsKnownField : List String → String × List String → Type 0
IsKnownField allowed f = (contains allowed f.0 ≡ true) × (is_single f.1 ≡ true)

-- A field of a form with exactly one value.
abbrev pub HasField : Form → String → Type 0
HasField form name = (value : String) × (find_key name form ≡ some (value ∷ []))

known_fields :
    (allowed : List String) (form : Form)
    → any (λ f. not (contains allowed f.0) || not (is_single f.1)) form ≡ false
    → All (IsKnownField allowed) form
known_fields allowed [] h = tt
known_fields allowed (f ∷ rest) h =
    ((ground (arith), ground (arith)), known_fields allowed rest (ground (arith)))

single_values :
    (values : List String) → is_single values ≡ true → (value : String) × (values ≡ value ∷ [])
single_values [] h = cc
single_values (v ∷ []) h = (v, refl)
single_values (v ∷ w ∷ rest) h = cc

single_field-HasField :
    (form : Form) (name : String) (found : Option (List String))
    → find_key name form ≡ found
    → elim found [ none ↦ false | some values ↦ is_single values ] ≡ true
    → HasField form name
single_field-HasField form name none same h = cc
single_field-HasField form name (some values) same h =
    let (value, one) = single_values values h in (value, same ∙ ap some one)

all_single-All :
    (form : Form) (names : List String) → all_single form names ≡ true → All (HasField form) names
all_single-All form [] h = tt
all_single-All form (name ∷ rest) h = (
  single_field-HasField form name (find_key name form) refl (ground (arith)),
  all_single-All form rest (ground (arith)),
)

csrf-token :
    (token : Option String) (provided : String)
    → csrf_matches token provided ≡ true
    → (token ≡ some provided) × (is_empty provided ≡ false)
csrf-token none provided h = cc
csrf-token (some expected) provided h =
    let same : expected ≡ provided = ground (arith, eq_iff expected provided) in
    (ap some same, subst (λ s. is_empty s ≡ false) same (ground (arith)))

module _ (x : Externals) (equal_fold : String → String → Bool) (public_origin : String) where
  -- A request from the site's own pages: no query, the site's origin, not cross-site, a form of
  -- exactly these fields with one value each, and the session's CSRF token, which is not empty.
  pub record IsOwnMutation (allowed : List String) (m : Mutation) (form : Form) : Type 0 where
    pub no_query : is_empty m.raw_query ≡ true
    pub own_origin : m.origin ≡ public_origin
    pub same_site : equal_fold m.fetch_site "cross-site" ≡ false
    pub form_type : content_type x equal_fold public_origin m ≡ "application/x-www-form-urlencoded"
    pub posted : m.post_form ≡ ok form
    pub known : All (IsKnownField allowed) form
    pub complete : All (HasField form) allowed
    pub token : m.csrf_token ≡ some (form_value "csrf" form)
    pub token_set : is_empty (form_value "csrf" form) ≡ false

  -- A form that `parse_mutation` lets pass comes without a query from the site's origin, not
  -- cross-site, is of the form's content type, has exactly the fields that are allowed, each with one
  -- value, and carries the CSRF token of the session, which is not empty.
  pub parse_mutation-IsOwnMutation :
      (allowed : List String) (m : Mutation) (form : Form)
      → parse_mutation x equal_fold public_origin allowed m ≡ passed form
      → IsOwnMutation allowed m form
  unfolding parse_mutation
  parse_mutation-IsOwnMutation allowed m form h =
      let (no_query, h1) =
        demand-eq-passed (is_empty m.raw_query) 400 "Query parameters are not accepted" _ h in
      let (site, h2) =
        demand-eq-passed (m.origin == public_origin && not (equal_fold m.fetch_site "cross-site"))
          403 "Cross-site request rejected" _ h1 in
      let (kind, h3) =
        demand-eq-passed
          (content_type x equal_fold public_origin m == "application/x-www-form-urlencoded") 415
          "Unsupported content type" _ h2 in
      let (found, posted, h4) =
        >>=-eq-passed (attempt (λ e. reply 400 "Invalid form body") m.post_form) _ h3 in
      let (known, h5) =
        demand-eq-passed (not (any (λ f. not (contains allowed f.0) || not (is_single f.1)) found))
          400 "Invalid form fields" _ h4 in
      let (complete, h6) =
        demand-eq-passed (all_single found allowed) 400 "Missing form field" _ h5 in
      let (checked, h7) =
        demand-eq-passed (csrf_matches m.csrf_token (form_value "csrf" found)) 403
          "Invalid CSRF token" _ h6 in
      let (token, token_set) = csrf-token m.csrf_token (form_value "csrf" found) checked in
      subst (IsOwnMutation allowed m) (passed-injective h7) (record {
        no_query = no_query;
        own_origin = ground (arith, eq_iff m.origin public_origin);
        same_site = ground (arith);
        form_type = ground (
          arith,
          eq_iff (content_type x equal_fold public_origin m) "application/x-www-form-urlencoded",
        );
        posted = attempt-eq-passed _ m.post_form posted;
        known = known_fields allowed found (ground (arith));
        complete = all_single-All found allowed complete;
        token = token;
        token_set = token_set;
      })
