-- ===== src/Authz/Server/Laws.antt =====
-- When the server lets a request pass, and what the checker is given.
use opensandbox_aks_governan.Base.{
  String, Bool, true, false, Option, none, some, List, [], ◌∷◌, ◌≡◌, refl, ap, ◌∙◌, arith, any,
  put_key, delete_key, map_chars, trim_space, string_eq, is_empty, Error, Result, ok, err,
  Bool-cases, Result-cases, inl, inr,
}
use opensandbox_aks_governan.Externals.{Externals}
use opensandbox_aks_governan.Cluster.{lookup_text}
use opensandbox_aks_governan.Governance.Target.{normalize_target}
use opensandbox_aks_governan.Authz.Decision.{CheckInput, Decision}
use opensandbox_aks_governan.Authz.Server.{
  HttpRequest, Attributes, backend_context_key, identity_header, is_withheld, allowed_response,
  header_value, copy_headers, normalize_http, normalize_found, normalize, respond, respond_to,
  server_check,
}

abbrev withheld_in : List (String × String) → Bool
withheld_in = any (λ h. is_withheld h.0)

withheld_in-delete_key :
    (k : String) (m : List (String × String))
    → withheld_in m ≡ false
    → withheld_in (delete_key k m) ≡ false
withheld_in-delete_key k [] h = refl
withheld_in-delete_key k ((j, v) ∷ m) h = ground (arith, withheld_in-delete_key k m)

-- A normalised request, and what it was made of.
pub record IsNormal (x : Externals) (equal_fold : String → String → Bool)
    (request : Option Attributes) (input : CheckInput) : Type 0 where
  pub attributes : Attributes
  pub present : request ≡ some attributes
  pub http : HttpRequest
  pub http_present : attributes.http ≡ some http
  pub token : input.identity_token ≡ header_value x equal_fold identity_header http.headers
  pub identified : is_empty (trim_space input.identity_token) ≡ false
  pub canonical :
      normalize_target x
        (trim_space (lookup_text backend_context_key attributes.context_extensions))
        http.method
        http.host
        http.path
      ≡ ok (record {
        backend = input.backend;
        method = input.method;
        host = input.host;
        path = input.path;
      })
  pub withheld : any (λ h. is_withheld h.0) input.headers ≡ false
  pub source : input.source_address ≡ attributes.source_address

module _ (x : Externals) (equal_fold : String → String → Bool) where
  copy_headers-withheld :
      (headers rest : List (String × String))
      → withheld_in headers ≡ false
      → withheld_in (copy_headers x equal_fold headers rest) ≡ false
  unfolding copy_headers
  copy_headers-withheld headers [] h = h
  copy_headers-withheld headers ((name, value) ∷ rest) h =
      elim (Bool-cases (is_withheld (map_chars x.to_lower name))) [
        | inl skipped ↦ rw skipped (copy_headers-withheld headers rest h)
        | inr copied ↦ rw copied (
            copy_headers-withheld (put_key (map_chars x.to_lower name) value headers) rest
              (rw copied (withheld_in-delete_key (map_chars x.to_lower name) headers h)))
      ]

  module _ (a : Attributes) (input : CheckInput) where
    from_http :
        (r : HttpRequest)
        → a.http ≡ some r
        → normalize_http x equal_fold
            (trim_space (lookup_text backend_context_key a.context_extensions))
            a.source_address
            r
          ≡ ok input
        → IsNormal x equal_fold (some a) input
    from_http r there h =
        elim (Result-cases (
          normalize_target x (trim_space (lookup_text backend_context_key a.context_extensions))
            r.method r.host r.path)) [
              | inr (e, bad) ↦ absurd (ground (arith))
              | inl (t, canonical) ↦
                  let backend : input.backend ≡ t.backend = ground (arith) in
                  let method : input.method ≡ t.method = ground (arith) in
                  let host : input.host ≡ t.host = ground (arith) in
                  let path : input.path ≡ t.path = ground (arith) in
                  let copied : input.headers ≡ copy_headers x equal_fold [] r.headers =
                    ground (arith) in
                  record {
                    attributes = a;
                    present = refl;
                    http = r;
                    http_present = there;
                    token = ground (arith);
                    identified = ground (arith);
                    canonical = rw (backend, method, host, path) canonical;
                    withheld = ap withheld_in copied ∙ copy_headers-withheld [] r.headers refl;
                    source = ground (arith);
                  }
            ]

    from_found :
        (found : Option HttpRequest)
        → a.http ≡ found
        → normalize_found x equal_fold
            (trim_space (lookup_text backend_context_key a.context_extensions))
            a.source_address
            found
          ≡ ok input
        → IsNormal x equal_fold (some a) input
    from_found none there h = absurd (cc)
    from_found (some r) there h = from_http r there h

  normalize-IsNormal :
      (request : Option Attributes) (input : CheckInput)
      → normalize x equal_fold request ≡ ok input
      → IsNormal x equal_fold request input
  unfolding normalize
  normalize-IsNormal none input h = absurd (cc)
  normalize-IsNormal (some a) input h =
      elim (Bool-cases
        (is_empty (trim_space (lookup_text backend_context_key a.context_extensions)))) [
          | inl missing ↦ absurd (cc (rw missing at h))
          | inr given ↦ from_found a input a.http refl (rw given at h)
        ]

  respond-allow :
      (outcome : Decision × Option Error)
      → respond x equal_fold outcome ≡ allowed_response
      → (outcome.0.allow ≡ true) × (outcome.1 ≡ none)
  respond-allow (d, some e) h = absurd (cc)
  respond-allow (d, none) h = ground (arith)

  -- The server lets a request pass only if the checker allows, without an error, an input that has the
  -- request's canonical target and its identity token, which is not blank, and in which no header has
  -- the lower-case name of the identity header or the name of one of Envoy's pseudo headers.
  pub server_check-IsNormal :
      (checker : CheckInput → Decision × Option Error) (request : Option Attributes)
      → server_check x equal_fold checker request ≡ allowed_response
      → (input : CheckInput) × IsNormal x equal_fold request input
        × ((checker input).0.allow ≡ true)
        × ((checker input).1 ≡ none)
  unfolding server_check
  server_check-IsNormal checker request h = from (normalize x equal_fold request) refl h
    where
      from :
          (answer : Result CheckInput)
          → normalize x equal_fold request ≡ answer
          → respond_to x equal_fold checker answer ≡ allowed_response
          → (input : CheckInput) × IsNormal x equal_fold request input
            × ((checker input).0.allow ≡ true)
            × ((checker input).1 ≡ none)
      from (err e) normal g = absurd (cc)
      from (ok input) normal g =
          let (permitted, clean) = respond-allow (checker input) g in
          (input, normalize-IsNormal request input normal, permitted, clean)
