-- ===== src/Broker/Claims.antt =====
-- internal/assignment/credentialbroker/broker.go: claims, requests, configuration, and the tests on
-- task IDs and lifetimes. A signing key is a text. A time is in nanoseconds.
pub mod Laws
use Prim.Native.String.{len}
use opensandbox_aks_governan.Base.{
  ℕ, ℤ, pos, le_int, times64, String, Bool, true, false, not, ◌&&◌, ◌||◌, Option, none, some, List,
  [], ◌∷◌, Table, ◌*◌, ltb, leb, nat_beq, if◌then◌else◌, ◌==◌, string_eq, is_empty, all_chars,
  trim_space, find_key, Error, message, Result, ok, err, ◌>>=◌, ◌>>◌, require, code,
}
use opensandbox_aks_governan.Api.{second, minute}
use opensandbox_aks_governan.Externals.{is_digit, is_upper, is_lower}
use opensandbox_aks_governan.Governance.Target.{Target}

-- The claims of a credential, with the registered ones of the JWT that the code sets or reads.
pub record GrantClaims : Type 0 where
  pub assignment_name : String
  pub assignment_uid : String
  pub sandbox_id : String
  pub pod_uid : String
  pub capability_bundle_name : String
  pub capability_bundle_revision : String
  pub task_id : String
  pub backend : String
  pub method : String
  pub host : String
  pub path : String
  pub issuer : String
  pub subject : String
  pub audience : List String
  pub expires_at : Option ℕ
  pub issued_at : Option ℕ
  pub not_before : Option ℕ
  pub id : String

pub record IssueRequest : Type 0 where
  pub identity_token : String
  pub backend : String
  pub method : String
  pub host : String
  pub path : String
  pub task_id : String
  pub ttl_seconds : ℤ

pub record Config : Type 0 where
  pub signing_key : String
  pub signing_key_id : String
  pub previous_signing_keys : List (String × String)
  pub issuer : String
  pub audience : String

-- `New` with its services at hand: the configuration with its defaults, or an error.
abbrev pub or_default : String → String → String
or_default text default = if is_empty text then default else text

abbrev pub good_previous : String → List (String × String) → Bool
good_previous current [] = true
good_previous current ((id, key) ∷ rest) =
    not (is_empty (trim_space id) || ltb (len key) 32 || id == current)
    && good_previous current rest

unfoldable pub new : Config → Result Config
new c =
    if ltb (len c.signing_key) 32
    then err (message "credential broker signing key must be at least 32 bytes")
    else (let filled = record c {
      issuer = or_default c.issuer "assignmentd-credential-broker";
      audience = or_default c.audience "sandbox-brokered-upstream";
      signing_key_id = or_default c.signing_key_id "current";
    } in
        if good_previous filled.signing_key_id c.previous_signing_keys
        then ok filled
        else err (message "credential broker previous signing keys are invalid"))

abbrev pub minimum_ttl : ℕ
minimum_ttl = minute

abbrev pub maximum_ttl : ℕ
maximum_ttl = 15 * minute

-- `time.Duration(request.TTLSeconds) * time.Second`, an int64 product.
abbrev pub ttl_of : ℤ → ℤ
ttl_of seconds = times64 seconds second

abbrev pub ttl_allowed : ℤ → Bool
ttl_allowed ttl = le_int (pos minimum_ttl) ttl && le_int ttl (pos maximum_ttl)

abbrev pub task_start : ℕ → Bool
task_start c = is_lower c || is_upper c || is_digit c

abbrev pub task_char : ℕ → Bool
task_char c = task_start c || nat_beq c b'.' || nat_beq c b'_' || nat_beq c b'-'

abbrev pub task_chars : String → Bool
task_chars String.[] = false
task_chars (String.◌∷◌ c s) = task_start (code c) && all_chars task_char s

unfoldable pub valid_task_id : String → Bool
valid_task_id s = leb 1 (len s) && leb (len s) 128 && task_chars s

-- The key that `parseAuthorization` gives for a key ID and a signing method.
unfoldable pub key_for : Config → String → String → Result String
key_for c method id =
    if method == "HS256"
    then (if id == c.signing_key_id
        then ok c.signing_key
        else elim (find_key id c.previous_signing_keys) [
          | none ↦ err (message "unknown signing key")
          | some key ↦ ok key
        ])
    else err (message "unexpected signing method")

-- The claims that `parseAuthorization` insists on.
unfoldable pub complete : GrantClaims → Bool
complete c =
    not (is_empty c.id)
    && not (is_empty c.assignment_uid)
    && not (is_empty c.pod_uid)
    && not (is_empty c.capability_bundle_revision)
    && valid_task_id c.task_id

unfoldable pub in_scope : Target → GrantClaims → Bool
in_scope t c =
    t.backend == c.backend && t.method == c.method && t.host == c.host && t.path == c.path
