-- ===== src/Dashboard/Sessions/Reached.antt =====
-- cmd/aks-sandbox-dashboard/auth.go: the tables of sessions that its operations lead to.
use opensandbox_aks_governan.Base.{
  ℕ, ◌<◌, String, Bool, Option, none, some, List, [], ◌∷◌, ◌≡◌, inl, inr, refl, subst, arith,
  find_key, is_empty, Bool-cases, Result,
}
use opensandbox_aks_governan.Dashboard.Principals.{AuthenticatedIdentity}
use opensandbox_aks_governan.Dashboard.Sessions.{
  DashboardSession, Sessions, SignIn, is_live, cleanup, live_only, delete_session, get_session,
  after_get, create_session,
}
use opensandbox_aks_governan.Dashboard.Sessions.Tables.{All-find_key}
use opensandbox_aks_governan.Dashboard.Sessions.Laws.{
  IsBacked, IsGuarded, cleanup-IsGuarded, delete_session-IsGuarded, after_get-IsGuarded,
  create_session-IsGuarded,
}
use opensandbox_aks_governan.Dashboard.Sessions.Gate.{
  signed_in, PageRequest, public_path, with_session, with_cookie, middleware,
}

module _ (digest : String → String) (equal_fold : String → String → Bool)
    (validate : String → Result AuthenticatedIdentity) (first_bytes : ℕ → String → String × String)
    (session_lifetime : ℕ) where
  -- The tables that sign-ins, requests, sign-outs and clean-ups in any order lead to. A request for the
  -- login page also looks up the session of its cookie.
  pub data Reached : List SignIn → Sessions → Type 0 where
    started : Reached [] []
    sign_in :
        {log : List SignIn} {t : Sessions} (q : SignIn)
        → Reached log t
        → Reached
            (q ∷ log)
            (create_session digest equal_fold validate first_bytes session_lifetime q t).0
    look_up :
        {log : List SignIn} {t : Sessions} (now : ℕ) (raw : String)
        → Reached log t
        → Reached log (after_get digest now raw t)
    sign_out :
        {log : List SignIn} {t : Sessions} (raw : String)
        → Reached log t
        → Reached log (delete_session digest raw t)
    clean_up :
        {log : List SignIn} {t : Sessions} (now : ℕ) → Reached log t → Reached log (cleanup now t)

  -- With a positive session lifetime, every table that is reached has at most 10,000 sessions, and
  -- each of them was entered by one of the sign-ins so far, under the digest of the ID that it drew and
  -- with the CSRF token that it drew, for the identity that the validator found in the bearer token of
  -- its header, and ends with that identity's token, if that ends at all, and at most the session
  -- lifetime after the time at which that sign-in was made.
  pub Reached-IsGuarded :
      (positive : 0 < session_lifetime) {log : List SignIn} {t : Sessions}
      → Reached log t
      → IsGuarded digest equal_fold validate first_bytes session_lifetime log t
  Reached-IsGuarded positive started = record { bounded = ground (arith); backed = tt }
  Reached-IsGuarded positive (sign_in q r) =
      create_session-IsGuarded digest equal_fold validate first_bytes session_lifetime positive q _
        _ (Reached-IsGuarded positive r)
  Reached-IsGuarded positive (look_up now raw r) =
      after_get-IsGuarded digest equal_fold validate first_bytes session_lifetime positive _ now raw
        _ (Reached-IsGuarded positive r)
  Reached-IsGuarded positive (sign_out raw r) =
      delete_session-IsGuarded digest equal_fold validate first_bytes session_lifetime positive _
        raw _ (Reached-IsGuarded positive r)
  Reached-IsGuarded positive (clean_up now r) =
      cleanup-IsGuarded digest equal_fold validate first_bytes session_lifetime positive _ now _
        (Reached-IsGuarded positive r)

  live_only-some :
      (now : ℕ) (found : Option DashboardSession) (s : DashboardSession)
      → live_only now found ≡ some s
      → (found ≡ some s) × (now < s.expires_at)
  live_only-some now none s h = cc
  live_only-some now (some s') s h = elim (Bool-cases (is_live now s')) [
    | inl live ↦ (
      rw live at h,
      subst (λ z. now < z.expires_at) (same_session (rw live at h)) (ground (arith)),
    )
    | inr over ↦ absurd (cc (rw over at h))
  ]
    where
      same_session : {a b : DashboardSession} → some a ≡ some b → a ≡ b
      same_session e = cc

  get_session-live :
      (now : ℕ) (raw : String) (t : Sessions) (s : DashboardSession)
      → get_session digest now raw t ≡ some s
      → (find_key (digest raw) t ≡ some s) × (now < s.expires_at)
  unfolding get_session
  get_session-live now raw t s h = elim (Bool-cases (is_empty raw)) [
    | inl nothing ↦ absurd (cc (rw nothing at h))
    | inr given ↦ live_only-some now (find_key (digest raw) t) s (rw given at h)
  ]

  -- What a request that is served with an identity has behind it: the session that its own cookie
  -- names in the table, which is not over and which one of the sign-ins so far entered.
  pub record IsSession (log : List SignIn) (t : Sessions) (now : ℕ) (q : PageRequest)
      (identity : AuthenticatedIdentity) (csrf : String) : Type 0 where
    pub raw : String
    pub cookie : q.cookie ≡ some raw
    pub session : DashboardSession
    pub listed : find_key (digest raw) t ≡ some session
    pub its_identity : session.identity ≡ identity
    pub its_token : session.csrf_token ≡ csrf
    pub live : now < session.expires_at
    pub backed :
        IsBacked digest equal_fold validate first_bytes session_lifetime log (digest raw, session)

  with_session-some :
      (base_path : String) (q : PageRequest) (found : Option DashboardSession)
      (identity : AuthenticatedIdentity) (csrf : String)
      → with_session digest equal_fold base_path q found ≡ signed_in identity csrf
      → (s : DashboardSession) × (found ≡ some s) × (s.identity ≡ identity) × (s.csrf_token ≡ csrf)
  with_session-some base_path q none identity csrf h = ground (arith)
  with_session-some base_path q (some s) identity csrf h = (s, refl, cc, cc)

  served-IsSession :
      (base_path : String) (positive : 0 < session_lifetime) (log : List SignIn) (t : Sessions)
      (now : ℕ) (q : PageRequest) (cookie : Option String) (identity : AuthenticatedIdentity)
      (csrf : String)
      → q.cookie ≡ cookie
      → Reached log t
      → (with_cookie digest equal_fold base_path now q t cookie).0 ≡ signed_in identity csrf
      → IsSession log t now q identity csrf
  served-IsSession base_path positive log t now q none identity csrf given r h = ground (arith)
  served-IsSession base_path positive log t now q (some raw) identity csrf given r h =
      let (s, found, named, token) =
        with_session-some base_path q (get_session digest now raw t) identity csrf h in
      let (listed, live) = get_session-live now raw t s found in
      record {
        raw = raw;
        cookie = given;
        session = s;
        listed = listed;
        its_identity = named;
        its_token = token;
        live = live;
        backed =
            All-find_key (IsBacked digest equal_fold validate first_bytes session_lifetime log)
              (digest raw) t s (Reached-IsGuarded positive r).backed listed;
      }

  -- With a positive session lifetime, in every table that is reached, the middleware serves a request
  -- with an identity and a CSRF token only if the request's cookie names a session of both in the table
  -- that is not over, and one of the sign-ins so far entered it, under an ID of the same digest: for the
  -- identity that the validator found in its bearer token, ending with that token, if it ends at all,
  -- and within the session lifetime from that sign-in.
  pub middleware-IsSession :
      (base_path : String) (positive : 0 < session_lifetime) (log : List SignIn) (t : Sessions)
      (now : ℕ) (q : PageRequest) (identity : AuthenticatedIdentity) (csrf : String)
      → Reached log t
      → (middleware digest equal_fold base_path now q t).0 ≡ signed_in identity csrf
      → IsSession log t now q identity csrf
  unfolding middleware
  middleware-IsSession base_path positive log t now q identity csrf r h =
      elim (Bool-cases (public_path base_path q.path)) [
        | inl open_path ↦ absurd (cc (rw open_path at h))
        | inr closed ↦
            served-IsSession base_path positive log t now q q.cookie identity csrf refl r
              (rw closed at h)
      ]
