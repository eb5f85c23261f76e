-- ===== src/Authz/Tokens/Laws.antt =====
-- The token cache: its bound, and where the identities that it answers with come from.
use opensandbox_aks_governan.Base.{
  ℕ, suc, String, Bool, true, false, ◌≡◌, ◌≤◌, ◌+◌, inl, inr, refl, sym, subst, ◌∙◌, arith, [],
  Option, none, some, ltb, leb, ltb→lt, if◌then◌else◌, ◌==◌, string_eq, eq_iff, length, find_key,
  put_key, find_key-put_key, find_key-delete_key, length-delete_key-le, Bool-cases, Result, ok, err,
}
use opensandbox_aks_governan.Authz.Decision.{Decision}
use opensandbox_aks_governan.Authz.Tokens.{
  ReviewedIdentity, CachedIdentity, TokenReview, Tokens, read_review, cache_expiry, remember,
  finish_review, review_cached, forget, review_token, token_cache_ttl, max_token_cache_entries,
}

-- The cache holds at most 4096 identities after any review, if it did before.
module _ (audience token : String) (now : ℕ) (expiry : Option ℕ) where
  remember-length :
      (identity : ReviewedIdentity) (expires_at : ℕ) (t : Tokens)
      → length t.values ≤ max_token_cache_entries
      → length (remember token identity now expires_at t).values ≤ max_token_cache_entries
  unfolding remember
  remember-length identity expires_at t h = ground (arith, length-delete_key-le token t.values)

  finish_review-length :
      (t : Tokens) (review : Result TokenReview)
      → length t.values ≤ max_token_cache_entries
      → length (finish_review audience token now expiry t review).0.values ≤ max_token_cache_entries
  unfolding finish_review
  finish_review-length t (err e) h = h
  finish_review-length t (ok review) h =
      ground (arith, remember-length (read_review audience review).0 (cache_expiry now expiry) t)

  review_cached-length :
      (review : Result TokenReview) (t : Tokens) (c : Option CachedIdentity)
      → length t.values ≤ max_token_cache_entries
      → length (review_cached audience token now expiry review t c).0.values
        ≤ max_token_cache_entries
  unfolding review_cached
  review_cached-length review t c h =
      let forgotten : length (forget token t).values ≤ max_token_cache_entries =
        omega (arith, length-delete_key-le token t.values) in
      ground (arith, finish_review-length (forget token t) review forgotten)

  -- The cache never holds more than 4096 identities: no review takes it past that.
  pub review_token-length :
      (review : Result TokenReview) (t : Tokens)
      → length t.values ≤ max_token_cache_entries
      → length (review_token audience token now expiry review t).0.values ≤ max_token_cache_entries
  unfolding review_token
  review_token-length review t h = review_cached-length review t (find_key token t.values) h

cache_expiry-le : (now : ℕ) (expiry : Option ℕ) → cache_expiry now expiry ≤ now + token_cache_ttl
cache_expiry-le now none = omega arith
cache_expiry-le now (some e) = ground arith

-- `server token at` is what the API server answers for a token at an instant.
module _ (audience : String) (server : String → ℕ → Result TokenReview) where
  -- The API server accepted the token for this identity at this instant.
  pub record Accepted (token : String) (identity : ReviewedIdentity) (at : ℕ) : Type 0 where
    pub review : TokenReview
    pub answered : server token at ≡ ok review
    pub read : (read_review audience review).0 ≡ identity
    pub allowed : (read_review audience review).1.allow ≡ true

  -- The identity was accepted for the token at an instant up to now, and is not to be used from
  -- `limit` on, at most thirty seconds after that.
  pub record IsRecent (now : ℕ) (token : String) (identity : ReviewedIdentity) (limit : ℕ)
      : Type 0 where
    pub at : ℕ
    pub past : at ≤ now
    pub accepted : Accepted token identity at
    pub soon : limit ≤ at + token_cache_ttl

  -- Every cached identity was accepted by the API server, and expires within thirty seconds of it.
  abbrev pub IsGenuine : ℕ → Tokens → Type 0
  IsGenuine now t =
      (token : String) (c : CachedIdentity)
      → find_key token t.values ≡ some c
      → IsRecent now token c.identity c.expires_at

  -- What was genuine before is so later.
  IsGenuine-later :
      (before now : ℕ) (t : Tokens) → before ≤ now → IsGenuine before t → IsGenuine now t
  IsGenuine-later before now t h old token c found =
      let was = old token c found in
      record {
        at = was.at;
        past = omega (arith, was.past);
        accepted = was.accepted;
        soon = was.soon;
      }

  put-IsGenuine :
      (now : ℕ) (t : Tokens) (token : String) (c : CachedIdentity)
      → IsGenuine now t
      → IsRecent now token c.identity c.expires_at
      → IsGenuine now (record t { values = put_key token c t.values })
  put-IsGenuine now t token c old new other c' found =
      let step : (if token == other then some c else find_key other t.values) ≡ some c' =
        sym (find_key-put_key token other c t.values) ∙ found in
      elim (Bool-cases (token == other)) [
        | inl same ↦
            let here : c ≡ c' = cc in
            subst (λ k. IsRecent now other k.identity k.expires_at) here
              (subst (λ k. IsRecent now k c.identity c.expires_at) ((eq_iff token other).0 same)
                new)
        | inr apart ↦ old other c' (rw apart at step)
      ]

  forget-IsGenuine :
      (now : ℕ) (t : Tokens) (token : String) → IsGenuine now t → IsGenuine now (forget token t)
  forget-IsGenuine now t token old other c found =
      let step : (if token == other then none else find_key other t.values) ≡ some c =
        sym (find_key-delete_key token other t.values) ∙ found in
      elim (Bool-cases (token == other)) [
        | inl same ↦ absurd (cc)
        | inr apart ↦ old other c (rw apart at step)
      ]

  module _ (token : String) (now : ℕ) (expiry : Option ℕ) where
    remember-IsGenuine :
        (t : Tokens) (identity : ReviewedIdentity) (limit : ℕ)
        → IsGenuine now t
        → IsRecent now token identity limit
        → IsGenuine now (remember token identity now limit t)
    unfolding remember
    remember-IsGenuine t identity limit old new = stored (ltb now limit)
      where
        full : Bool
        full = leb max_token_cache_entries (length t.values)

        kept : (b : Bool) → IsGenuine now (record t { values = if b then [] else t.values })
        kept true other c found = absurd (cc)
        kept false other c found = old other c found

        stored :
            (b : Bool)
            → IsGenuine now (
                if b
                then record t {
                  values =
                      put_key token
                        (record { identity = identity; expires_at = limit })
                        (if full then [] else t.values);
                }
                else t)
        stored true =
            put-IsGenuine now (record t { values = if full then [] else t.values }) token
              (record { identity = identity; expires_at = limit }) (kept full) new
        stored false = old

    IsRecent-of :
        (identity : ReviewedIdentity) (limit at : ℕ)
        → Accepted token identity at
        → at ≤ now
        → limit ≤ at + token_cache_ttl
        → IsRecent now token identity limit
    IsRecent-of identity limit at accepted past soon = record {
      at = at;
      past = past;
      accepted = accepted;
      soon = soon;
    }

    -- The state and the answer of a review are both backed by the API server.
    Backed : Tokens × Result (ReviewedIdentity × Decision) → Type 0
    Backed out =
        IsGenuine now out.0
        × ((identity : ReviewedIdentity) (d : Decision)
            → out.1 ≡ ok (identity, d)
            → d.allow ≡ true
            → IsRecent now token identity (suc now))

    finish-Backed :
        (t : Tokens) (review : Result TokenReview)
        → server token now ≡ review
        → IsGenuine now t
        → Backed (finish_review audience token now expiry t review)
    unfolding finish_review Backed
    finish-Backed t (err e) asked old = (old, λ identity d same allowed. cc)
    finish-Backed t (ok review) asked old =
        elim (Bool-cases (read_review audience review).1.allow) [
          | inl allowed ↦
              let accepted : Accepted token (read_review audience review).0 now = record {
                review = review;
                answered = asked;
                read = refl;
                allowed = allowed;
              } in
              let recent = λ (limit : ℕ) (soon : limit ≤ now + token_cache_ttl).
                IsRecent-of (read_review audience review).0 limit now accepted (omega arith) soon in
              rw allowed (
                remember-IsGenuine t (read_review audience review).0 (cache_expiry now expiry) old
                    (recent (cache_expiry now expiry) (cache_expiry-le now expiry)),
                λ identity d same good.
                    let here : (read_review audience review).0 ≡ identity = cc in
                    subst (λ k. IsRecent now token k (suc now)) here
                      (recent (suc now) (omega arith)),
              )
          | inr refused ↦ rw refused (old, λ identity d same good. absurd (cc))
        ]

    review-Backed :
        (t : Tokens) (c : Option CachedIdentity)
        → find_key token t.values ≡ c
        → IsGenuine now t
        → Backed (review_cached audience token now expiry (server token now) t c)
    unfolding review_cached Backed
    review-Backed t none at old =
        finish-Backed (forget token t) (server token now) refl (forget-IsGenuine now t token old)
    review-Backed t (some c) at old = elim (Bool-cases (ltb now c.expires_at)) [
      | inl live ↦
          let from : IsRecent now token c.identity c.expires_at = old token c at in
          rw live (
            old,
            λ identity d same good.
                let here : c.identity ≡ identity = cc in
                subst (λ k. IsRecent now token k (suc now)) here
                  (IsRecent-of c.identity (suc now) from.at from.accepted from.past
                    (omega (arith, ltb→lt now c.expires_at live, from.soon))),
          )
      | inr stale ↦ rw stale (
          finish-Backed (forget token t) (server token now) refl (forget-IsGenuine now t token old))
    ]

    -- Where each cached identity was accepted before the review and expires within thirty seconds of
    -- that, an identity that the review answers with, from the cache or not, was accepted for the token
    -- by the API server at an instant that is not after the review and at most thirty seconds before,
    -- and what the cache holds stays so backed.
    pub review_token_backed :
        (t : Tokens) (before : ℕ)
        → before ≤ now
        → IsGenuine before t
        → IsGenuine now (review_token audience token now expiry (server token now) t).0
          × ((identity : ReviewedIdentity) (d : Decision)
              → (review_token audience token now expiry (server token now) t).1 ≡ ok (identity, d)
              → d.allow ≡ true
              → IsRecent now token identity (suc now))
    unfolding review_token Backed
    review_token_backed t before h old =
        review-Backed t (find_key token t.values) refl (IsGenuine-later before now t h old)
