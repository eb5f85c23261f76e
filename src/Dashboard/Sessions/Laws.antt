-- ===== src/Dashboard/Sessions/Laws.antt =====
-- What a table of sessions keeps to.
use Prim.Native.String.{len}
use opensandbox_aks_governan.Base.{
  ℕ, ◌+◌, ◌≤◌, ◌<◌, String, Bool, Option, none, some, ◌≡◌, ◌⊎◌, inl, inr, refl, sym, subst, arith,
  List, ◌∷◌, Any, trim_space, true, false, not, ◌&&◌, length, length-keep-le, length-delete_key-le,
  All, find_key, put_key, is_empty, Bool-cases, Result, ok, err, ltb, leb, ◌==◌, nat_eq, string_eq,
}
use opensandbox_aks_governan.Facade.Lifecycle.{reply}
use opensandbox_aks_governan.Dashboard.Handled.{
  Handled, refused, passed, attempt, >>=-eq-passed, demand-eq-passed, attempt-eq-passed,
  passed-injective,
}
use opensandbox_aks_governan.Dashboard.Principals.{AuthenticatedIdentity}
use opensandbox_aks_governan.Dashboard.Sessions.{
  DashboardSession, Sessions, SignIn, max_sessions, minimum_time, is_live, cleanup, delete_session,
  add_session, without_expired, after_get, bearer, expiry_of, unavailable, new_session, prepare,
  enter, create_session,
}
use opensandbox_aks_governan.Dashboard.Sessions.Tables.{All-keep, All-delete_key, All-map}

module _ (digest : String → String) (equal_fold : String → String → Bool)
    (validate : String → Result AuthenticatedIdentity) (first_bytes : ℕ → String → String × String)
    (session_lifetime : ℕ) where
  -- The token behind `Bearer ` in a header, not blank.
  pub record IsBearer (header token : String) : Type 0 where
    pub scheme : equal_fold (first_bytes 7 header).0 "Bearer " ≡ true
    pub behind : token ≡ trim_space (first_bytes 7 header).1
    pub filled : is_empty token ≡ false

  -- A session that one of these sign-ins entered, under the digest of the ID that it drew: for the
  -- identity that the validator found in the token of its header, with the CSRF token that it drew, and
  -- no longer than the token and the session lifetime from the time of the sign-in.
  pub record IsBacked (log : List SignIn) (entry : String × DashboardSession) : Type 0 where
    pub visit : SignIn
    pub made : Any (λ q. q ≡ visit) log
    pub id : String
    pub drawn : visit.random_id ≡ ok id
    pub keyed : entry.0 ≡ digest id
    pub token : String
    pub presented : IsBearer visit.authorization token
    pub validated : validate token ≡ ok entry.1.identity
    pub csrf : visit.random_csrf ≡ ok entry.1.csrf_token
    pub fresh : visit.tested_at < entry.1.expires_at
    pub within_token :
        (entry.1.identity.expires_at ≡ 0) ⊎ (entry.1.expires_at ≤ entry.1.identity.expires_at)
    pub within_lifetime : entry.1.expires_at ≤ visit.issued_at + session_lifetime

  -- At most the capacity, and every session backed.
  pub record IsGuarded (log : List SignIn) (t : Sessions) : Type 0 where
    pub bounded : length t ≤ max_sessions
    pub backed : All (IsBacked log) t

  bearer-IsBearer :
      (header token : String)
      → bearer digest equal_fold validate first_bytes session_lifetime header ≡ passed token
      → IsBearer header token
  bearer-IsBearer header token h =
      let (scheme, h1) =
        demand-eq-passed (leb 7 (len header) && equal_fold (first_bytes 7 header).0 "Bearer ") 401
          "Bearer token is required" _ h in
      let (filled, h2) =
        demand-eq-passed (not (is_empty (trim_space (first_bytes 7 header).1))) 401
          "Bearer token is required" _ h1 in
      subst (IsBearer header) (passed-injective h2)
        (record { scheme = ground (arith); behind = refl; filled = ground (arith) })

  minimum_time-token : (a b : ℕ) → (a ≡ 0) ⊎ (minimum_time a b ≤ a)
  minimum_time-token a b = elim (Bool-cases (a == 0)) [
    | inl zero_time ↦ inl (ground (arith))
    | inr set ↦ inr (ground (arith))
  ]

  minimum_time-lifetime : (a b : ℕ) → 0 < b → minimum_time a b ≤ b
  minimum_time-lifetime a b h = ground (arith)

  -- What a sign-in has found before it enters its session.
  pub record IsSignedIn (q : SignIn) (s : DashboardSession) : Type 0 where
    pub token : String
    pub presented :
        bearer digest equal_fold validate first_bytes session_lifetime q.authorization
        ≡ passed token
    pub validated : validate token ≡ ok s.identity
    pub unexpired : q.tested_at < s.expires_at
    pub ends :
        s.expires_at
        ≡ expiry_of digest equal_fold validate first_bytes session_lifetime s.identity q.issued_at
    pub csrf : q.random_csrf ≡ ok s.csrf_token

  new_session-fields :
      (q : SignIn) (identity : AuthenticatedIdentity) (s : DashboardSession)
      → new_session digest equal_fold validate first_bytes session_lifetime q identity ≡ passed s
      → (q.tested_at
          < expiry_of digest equal_fold validate first_bytes session_lifetime identity q.issued_at)
        × (csrf : String) × (q.random_csrf ≡ ok csrf)
        × (record {
          identity = identity;
          csrf_token = csrf;
          created_at = q.created_at;
          expires_at =
              expiry_of digest equal_fold validate first_bytes session_lifetime identity
                q.issued_at;
        }
            ≡ s)
  unfolding new_session
  new_session-fields q identity s h =
      let (unexpired, h1) =
        demand-eq-passed
          (ltb q.tested_at (
            expiry_of digest equal_fold validate first_bytes session_lifetime identity q.issued_at))
          401 "Token has expired" _ h in
      let (csrf, drawn, h2) =
        >>=-eq-passed
          (attempt (unavailable digest equal_fold validate first_bytes session_lifetime)
            q.random_csrf)
          _ h1 in
      (
        ground (arith),
        csrf,
        attempt-eq-passed (unavailable digest equal_fold validate first_bytes session_lifetime)
            q.random_csrf drawn,
        passed-injective h2,
      )

  pub prepare-IsSignedIn :
      (q : SignIn) (s : DashboardSession)
      → prepare digest equal_fold validate first_bytes session_lifetime q ≡ passed s
      → IsSignedIn q s
  unfolding prepare
  prepare-IsSignedIn q s h =
      let (token, presented, h1) =
        >>=-eq-passed
          (bearer digest equal_fold validate first_bytes session_lifetime q.authorization) _ h in
      let (identity, validated, h2) =
        >>=-eq-passed (attempt (λ e. reply 401 "Token validation failed") (validate token)) _ h1 in
      let (unexpired, csrf, drawn, same) = new_session-fields q identity s h2 in
      subst (IsSignedIn q) same (record {
        token = token;
        presented = presented;
        validated = attempt-eq-passed _ (validate token) validated;
        unexpired = unexpired;
        ends = refl;
        csrf = drawn;
      })

  module _ (positive : 0 < session_lifetime) (log : List SignIn) where
    IsSignedIn-IsBacked :
        (q : SignIn) (s : DashboardSession) (id : String)
        → Any (λ p. p ≡ q) log
        → q.random_id ≡ ok id
        → IsSignedIn q s
        → IsBacked log (digest id, s)
    IsSignedIn-IsBacked q s id made drawn signed = record {
      visit = q;
      made = made;
      id = id;
      drawn = drawn;
      keyed = refl;
      token = signed.token;
      presented = bearer-IsBearer q.authorization signed.token signed.presented;
      validated = signed.validated;
      csrf = signed.csrf;
      fresh = signed.unexpired;
      within_token =
          subst (λ e. (s.identity.expires_at ≡ 0) ⊎ (e ≤ s.identity.expires_at)) (sym signed.ends)
            (minimum_time-token s.identity.expires_at (q.issued_at + session_lifetime));
      within_lifetime =
          subst (λ e. e ≤ q.issued_at + session_lifetime) (sym signed.ends)
            (minimum_time-lifetime s.identity.expires_at (q.issued_at + session_lifetime)
              (ground (arith)));
    }

    pub cleanup-IsGuarded :
        (now : ℕ) (t : Sessions) → IsGuarded log t → IsGuarded log (cleanup now t)
    unfolding cleanup
    cleanup-IsGuarded now t g = record {
      bounded = ground (arith, g.bounded, length-keep-le (λ entry. is_live now entry.1) t);
      backed = All-keep (IsBacked log) (λ entry. is_live now entry.1) t g.backed;
    }

    pub delete_session-IsGuarded :
        (raw : String) (t : Sessions)
        → IsGuarded log t
        → IsGuarded log (delete_session digest raw t)
    unfolding delete_session
    delete_session-IsGuarded raw t g = elim (Bool-cases (is_empty raw)) [
      | inl nothing ↦ rw nothing g
      | inr given ↦ rw given (record {
        bounded = ground (arith, g.bounded, length-delete_key-le (digest raw) t);
        backed = All-delete_key (IsBacked log) (digest raw) t g.backed;
      })
    ]

    pub after_get-IsGuarded :
        (now : ℕ) (raw : String) (t : Sessions)
        → IsGuarded log t
        → IsGuarded log (after_get digest now raw t)
    unfolding after_get
    after_get-IsGuarded now raw t g = elim (Bool-cases (is_empty raw)) [
      | inl nothing ↦ rw nothing g
      | inr given ↦ rw given (from (find_key (digest raw) t))
    ]
      where
        from :
            (found : Option DashboardSession)
            → IsGuarded log (without_expired digest now raw t found)
        from none = g
        from (some s) = elim (Bool-cases (is_live now s)) [
          | inl live ↦ rw live g
          | inr over ↦ rw over (delete_session-IsGuarded raw t g)
        ]

    put-IsGuarded :
        (now : ℕ) (key : String) (s : DashboardSession) (t : Sessions)
        → IsGuarded log (cleanup now t)
        → length (cleanup now t) < max_sessions
        → IsBacked log (key, s)
        → IsGuarded log (put_key key s (cleanup now t))
    put-IsGuarded now key s t g room backed = record {
      bounded = ground (arith, room, length-delete_key-le key (cleanup now t));
      backed = (backed, All-delete_key (IsBacked log) key (cleanup now t) g.backed);
    }

    add_session-IsGuarded :
        (now : ℕ) (s : DashboardSession) (id : Result String) (t : Sessions)
        → ((raw : String) → id ≡ ok raw → IsBacked log (digest raw, s))
        → IsGuarded log t
        → IsGuarded log (add_session digest now s id t).0
    add_session-IsGuarded now s (err e) t backed g = g
    add_session-IsGuarded now s (ok raw) t backed g =
        elim (Bool-cases (leb max_sessions (length (cleanup now t)))) [
          | inl full ↦ rw full (cleanup-IsGuarded now t g)
          | inr room ↦ rw room (
              put-IsGuarded now (digest raw) s t (cleanup-IsGuarded now t g) (ground (arith))
                (backed raw refl))
        ]

  later-IsGuarded :
      (q : SignIn) (log : List SignIn) (t : Sessions) → IsGuarded log t → IsGuarded (q ∷ log) t
  later-IsGuarded q log t g = record {
    bounded = g.bounded;
    backed =
        All-map (IsBacked log) (IsBacked (q ∷ log)) t
          (λ entry was. record {
            visit = was.visit;
            made = inr was.made;
            id = was.id;
            drawn = was.drawn;
            keyed = was.keyed;
            token = was.token;
            presented = was.presented;
            validated = was.validated;
            csrf = was.csrf;
            fresh = was.fresh;
            within_token = was.within_token;
            within_lifetime = was.within_lifetime;
          })
          g.backed;
  }

  module _ (positive : 0 < session_lifetime) where
    pub create_session-IsGuarded :
        (q : SignIn) (log : List SignIn) (t : Sessions)
        → IsGuarded log t
        → IsGuarded
            (q ∷ log)
            (create_session digest equal_fold validate first_bytes session_lifetime q t).0
    unfolding create_session
    create_session-IsGuarded q log t g =
        from (prepare digest equal_fold validate first_bytes session_lifetime q) refl
      where
        from :
            (prepared : Handled DashboardSession)
            → prepare digest equal_fold validate first_bytes session_lifetime q ≡ prepared
            → IsGuarded
                (q ∷ log)
                (enter digest equal_fold validate first_bytes session_lifetime q t prepared).0
        from (refused response) h = later-IsGuarded q log t g
        from (passed s) h =
            add_session-IsGuarded positive (q ∷ log) q.cleaned_at s q.random_id t
              (λ id drawn.
                IsSignedIn-IsBacked positive (q ∷ log) q s id (inl refl) drawn
                  (prepare-IsSignedIn q s h))
              (later-IsGuarded q log t g)
