-- ===== src/Authz/Tokens.antt =====
-- internal/assignment/authz/checker.go: `reviewToken` and its cache of reviewed identities, one
-- call at a time. A token stands for its SHA-256 digest, as if no two tokens had the same.
pub mod Laws
use opensandbox_aks_governan.Base.{
  ℕ, count64, String, Bool, true, false, not, ◌&&◌, ◌||◌, Option, none, some, List, [], ◌∷◌, ◌+◌,
  ◌*◌, ltb, leb, nat_beq, if◌then◌else◌, ◌==◌, string_eq, is_empty, cut_prefix, split, contains,
  length, find_key, delete_key, put_key, Error, Result, ok, err,
}
use opensandbox_aks_governan.Api.{second}
use opensandbox_aks_governan.Authz.Decision.{Decision, empty_decision, denied}

abbrev pub max_token_cache_entries : ℕ
max_token_cache_entries = 4096

abbrev pub token_cache_ttl : ℕ
token_cache_ttl = 30 * second

pub record ReviewedIdentity : Type 0 where
  pub namespace : String
  pub service_account : String
  pub pod_name : String
  pub pod_uid : String

pub record CachedIdentity : Type 0 where
  pub identity : ReviewedIdentity
  pub expires_at : ℕ

-- The status of a Kubernetes TokenReview; an extra that is missing is an empty list.
pub record TokenReview : Type 0 where
  pub authenticated : Bool
  pub error : String
  pub audiences : List String
  pub username : String
  pub pod_names : List String
  pub pod_uids : List String

-- The cache, and the counters that `reviewToken` adds to.
pub record Tokens : Type 0 where
  pub values : List (String × CachedIdentity)
  pub reviews : ℕ
  pub hits : ℕ

-- `Decision{Allow: true}`.
abbrev pub passed : Decision
passed = record empty_decision { allow = true }

abbrev pub no_identity : ReviewedIdentity
no_identity = record { namespace = ""; service_account = ""; pod_name = ""; pod_uid = "" }

-- The one Pod that a token is bound to: one non-empty name and one non-empty UID.
abbrev pub bound_pod : List String → List String → Option (String × String)
bound_pod (name ∷ []) (uid ∷ []) = if is_empty name || is_empty uid then none else some (name, uid)
bound_pod _ _ = none

-- The namespace and name in `system:serviceaccount:<namespace>:<name>`.
abbrev pub two_parts : List String → Option (String × String)
two_parts (a ∷ b ∷ []) = some (a, b)
two_parts _ = none

abbrev pub service_account_parts : Option String → Option (String × String)
service_account_parts none = none
service_account_parts (some rest) = two_parts (split b':' rest)

abbrev pub service_account_prefix : String
service_account_prefix = "system:serviceaccount:"

abbrev identity_of :
    Option (String × String) → Option (String × String) → ReviewedIdentity × Decision
identity_of none pod = (no_identity, denied "token is not a ServiceAccount identity")
identity_of (some account) none = (no_identity, denied "token is not Pod-bound")
identity_of (some account) (some pod) = (
  record { namespace = account.0; service_account = account.1; pod_name = pod.0; pod_uid = pod.1 },
  passed,
)

-- The earlier of the cache's limit and the token's own expiry, when it has one.
abbrev pub cache_expiry : ℕ → Option ℕ → ℕ
cache_expiry now none = now + token_cache_ttl
cache_expiry now (some expiry) =
    if ltb expiry (now + token_cache_ttl) then expiry else now + token_cache_ttl

unfoldable pub remember : String → ReviewedIdentity → ℕ → ℕ → Tokens → Tokens
remember token identity now expires_at t =
    let kept = if leb max_token_cache_entries (length t.values) then [] else t.values in
    if ltb now expires_at
    then record t {
      values = put_key token (record { identity = identity; expires_at = expires_at }) kept;
    }
    else t

-- `delete(values, tokenHash)`, and the review that is counted.
abbrev pub forget : String → Tokens → Tokens
forget token t = record t { values = delete_key token t.values; reviews = count64 t.reviews }

module _ (audience : String) where
  -- The identity in a review, or why it is rejected.
  unfoldable pub read_review : TokenReview → ReviewedIdentity × Decision
  read_review review =
      if not review.authenticated
        || not (is_empty review.error)
        || not (contains review.audiences audience)
      then (no_identity, denied "TokenReview rejected identity")
      else identity_of (service_account_parts (cut_prefix service_account_prefix review.username))
          (bound_pod review.pod_names review.pod_uids)

  -- A review that was made: its answer, and what is remembered of it.
  unfoldable pub finish_review :
      String
      → ℕ
      → Option ℕ
      → Tokens
      → Result TokenReview
      → Tokens × Result (ReviewedIdentity × Decision)
  finish_review token now expiry t (err e) = (t, err e)
  finish_review token now expiry t (ok review) =
      let answer = read_review review in
      if answer.1.allow
      then (remember token answer.0 now (cache_expiry now expiry) t, ok answer)
      else (t, ok answer)

  -- A cached identity that is not expired answers; else the entry goes and the token is reviewed.
  -- `expiry` is what `jwtExpiration` finds in the token, `review` what the API server answers.
  unfoldable pub review_cached :
      String
      → ℕ
      → Option ℕ
      → Result TokenReview
      → Tokens
      → Option CachedIdentity
      → Tokens × Result (ReviewedIdentity × Decision)
  review_cached token now expiry review t none =
      finish_review token now expiry (forget token t) review
  review_cached token now expiry review t (some cached) =
      if ltb now cached.expires_at
      then (record t { hits = count64 t.hits }, ok (cached.identity, passed))
      else finish_review token now expiry (forget token t) review

  unfoldable pub review_token :
      String
      → ℕ
      → Option ℕ
      → Result TokenReview
      → Tokens
      → Tokens × Result (ReviewedIdentity × Decision)
  review_token token now expiry review t =
      review_cached token now expiry review t (find_key token t.values)
