-- ===== src/Authz/Server.antt =====
-- internal/assignment/authz/server.go: `Check` of the server and `normalize`. The headers of a request
-- are listed in the order in which Go's map iteration happens to give them; `strings.EqualFold` is a
-- parameter.
pub mod Laws
use opensandbox_aks_governan.Base.{
  ℕ, String, Bool, true, false, ◌||◌, Option, none, some, List, [], ◌∷◌, put_key, map_chars,
  trim_space, cut_prefix, is_some, if◌then◌else◌, ◌==◌, string_eq, is_empty, Error, message,
  wrapped, Result, ok, err,
}
use opensandbox_aks_governan.Externals.{Externals}
use opensandbox_aks_governan.Cluster.{lookup_text}
use opensandbox_aks_governan.Governance.Target.{Target, normalize_target}
use opensandbox_aks_governan.Authz.Decision.{CheckInput, Decision}

abbrev pub backend_context_key : String
backend_context_key = "backend"

abbrev pub identity_header : String
identity_header = "x-aks-sandbox-identity"

pub record HttpRequest : Type 0 where
  pub method : String
  pub host : String
  pub path : String
  pub headers : List (String × String)

-- `CheckRequest.Attributes`; the source address is empty where there is no socket address.
pub record Attributes : Type 0 where
  pub context_extensions : List (String × String)
  pub http : Option HttpRequest
  pub source_address : String

-- The header that carries the token, and Envoy's pseudo headers.
abbrev pub is_withheld : String → Bool
is_withheld name = name == identity_header || is_some (cut_prefix ":" name)

pub data CheckResponse : Type 0 where
  denied_response allowed_response : CheckResponse

module _ (x : Externals) (equal_fold : String → String → Bool) where
  abbrev pub header_value : String → List (String × String) → String
  header_value wanted [] = ""
  header_value wanted ((name, value) ∷ rest) =
      let later = header_value wanted rest in if equal_fold name wanted then value else later

  -- The loop that copies the headers, with those copied so far.
  unfoldable pub copy_headers :
      List (String × String) → List (String × String) → List (String × String)
  copy_headers headers [] = headers
  copy_headers headers ((name, value) ∷ rest) =
      let skipped = copy_headers headers rest in
      let copied = copy_headers (put_key (map_chars x.to_lower name) value headers) rest in
      if is_withheld (map_chars x.to_lower name) then skipped else copied

  abbrev pub input_of : String → List (String × String) → String → Result Target → Result CheckInput
  input_of identity headers source (err e) = err (wrapped "invalid authorization target" e)
  input_of identity headers source (ok target) = ok (record {
    backend = target.backend;
    identity_token = identity;
    method = target.method;
    host = target.host;
    path = target.path;
    headers = headers;
    source_address = source;
    derive_source_from_identity = false;
  })

  abbrev pub normalize_http : String → String → HttpRequest → Result CheckInput
  normalize_http backend source r =
      let target = normalize_target x backend r.method r.host r.path in
      let identity = header_value identity_header r.headers in
      let input = input_of identity (copy_headers [] r.headers) source target in
      if is_empty r.method || is_empty r.path
      then err (message "missing HTTP method or path")
      else if is_empty (trim_space identity)
      then err (message "missing sandbox identity")
      else input

  abbrev pub normalize_found : String → String → Option HttpRequest → Result CheckInput
  normalize_found backend source none = err (message "missing HTTP request attributes")
  normalize_found backend source (some r) = normalize_http backend source r

  abbrev pub normalize_attributes : Attributes → Result CheckInput
  normalize_attributes a =
      let backend = trim_space (lookup_text backend_context_key a.context_extensions) in
      let input = normalize_found backend a.source_address a.http in
      if is_empty backend then err (message "missing backend context") else input

  unfoldable pub normalize : Option Attributes → Result CheckInput
  normalize none = err (message "missing attribute context")
  normalize (some a) = normalize_attributes a

  abbrev pub respond : Decision × Option Error → CheckResponse
  respond (d, some e) = denied_response
  respond (d, none) = if d.allow then allowed_response else denied_response

  abbrev pub respond_to : (CheckInput → Decision × Option Error) → Result CheckInput → CheckResponse
  respond_to checker (err e) = denied_response
  respond_to checker (ok input) = respond (checker input)

  unfoldable pub server_check :
      (CheckInput → Decision × Option Error) → Option Attributes → CheckResponse
  server_check checker request = respond_to checker (normalize request)
