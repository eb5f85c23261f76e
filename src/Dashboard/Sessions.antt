-- ===== src/Dashboard/Sessions.antt =====
-- cmd/aks-sandbox-dashboard/auth.go: `memoryAuthStore`, `createSession`, `logout` and `Middleware`. SHA-256,
-- the random values, the token validator and the clock are arguments. One operation is one step: a
-- lock is held over each access of the table.
pub mod Gate
pub mod Laws
pub mod Tables
pub mod Reached
pub mod SignIns
use Prim.Native.String
use Prim.Native.String.{len}
use opensandbox_aks_governan.Base.{
  ℕ, ◌+◌, String, Bool, true, false, not, ◌&&◌, ◌||◌, Option, none, some, List, [], ◌∷◌, ltb, leb,
  length, keep, find_key, delete_key, put_key, Table, if◌then◌else◌, ◌==◌, string_eq, nat_eq,
  is_empty, trim_space, Error, message, Result, ok, err,
}
use opensandbox_aks_governan.Facade.Lifecycle.{Response, reply}
use opensandbox_aks_governan.Dashboard.Handled.{
  Handled, refused, passed, demand, attempt, ◌>>=◌, ◌>>◌,
}
use opensandbox_aks_governan.Dashboard.Principals.{AuthenticatedIdentity}

pub record DashboardSession : Type 0 where
  pub identity : AuthenticatedIdentity
  pub csrf_token : String
  pub created_at : ℕ
  pub expires_at : ℕ

-- The table of sessions, by the digest of their ID.
abbrev pub Sessions : Type 0
Sessions = Table DashboardSession

abbrev pub max_sessions : ℕ
max_sessions = 10000

-- `minimumTime` of two times; 0 is Go's zero time, which does not count.
abbrev pub minimum_time : ℕ → ℕ → ℕ
minimum_time a b = if a == 0 then b else if b == 0 then a else if ltb b a then b else a

abbrev pub is_live : ℕ → DashboardSession → Bool
is_live now s = ltb now s.expires_at

-- `cleanupLocked`.
unfoldable pub cleanup : ℕ → Sessions → Sessions
cleanup now t = keep (λ entry. is_live now entry.1) t

abbrev pub live_only : ℕ → Option DashboardSession → Option DashboardSession
live_only now none = none
live_only now (some s) = if is_live now s then some s else none

-- What one sign-in is given: the header, the clock each time it is read, and the random values.
pub record SignIn : Type 0 where
  pub authorization : String
  pub issued_at : ℕ
  pub tested_at : ℕ
  pub created_at : ℕ
  pub cleaned_at : ℕ
  pub random_csrf : Result String
  pub random_id : Result String

module _ (digest : String → String) where
  -- `deleteSession`.
  unfoldable pub delete_session : String → Sessions → Sessions
  delete_session raw t = if is_empty raw then t else delete_key (digest raw) t

  -- `createSession` of the store, with the ID that `randomValue` returned: the table after it, which has
  -- lost the sessions that are over also where the capacity is reached.
  abbrev pub add_session :
      ℕ → DashboardSession → Result String → Sessions → Sessions × Result String
  add_session now s (err e) t = (t, err e)
  add_session now s (ok raw) t =
      if leb max_sessions (length (cleanup now t))
      then (cleanup now t, err (message "dashboard session capacity reached"))
      else (put_key (digest raw) s (cleanup now t), ok raw)

  -- `getSession`: the session, and the table without it if it is over.
  unfoldable pub get_session : ℕ → String → Sessions → Option DashboardSession
  get_session now raw t = if is_empty raw then none else live_only now (find_key (digest raw) t)

  abbrev pub without_expired : ℕ → String → Sessions → Option DashboardSession → Sessions
  without_expired now raw t none = t
  without_expired now raw t (some s) = if is_live now s then t else delete_session raw t

  unfoldable pub after_get : ℕ → String → Sessions → Sessions
  after_get now raw t =
      if is_empty raw then t else without_expired now raw t (find_key (digest raw) t)

  module _ (equal_fold : String → String → Bool) (validate : String → Result AuthenticatedIdentity)
      (first_bytes : ℕ → String → String × String) (session_lifetime : ℕ) where
    -- The token behind `Bearer ` in any case; `first_bytes` cuts a text after so many bytes.
    abbrev pub bearer : String → Handled String
    bearer authorization = do
      demand (leb 7 (len authorization) && equal_fold (first_bytes 7 authorization).0 "Bearer ") 401
          "Bearer token is required"
      demand (not (is_empty (trim_space (first_bytes 7 authorization).1))) 401
          "Bearer token is required"
      passed (trim_space (first_bytes 7 authorization).1)

    abbrev pub expiry_of : AuthenticatedIdentity → ℕ → ℕ
    expiry_of identity now = minimum_time identity.expires_at (now + session_lifetime)

    abbrev pub unavailable : Error → Response
    unavailable e = reply 503 "Failed to create dashboard session"

    -- The session of an identity that was validated.
    unfoldable pub new_session : SignIn → AuthenticatedIdentity → Handled DashboardSession
    new_session q identity = do
      demand (ltb q.tested_at (expiry_of identity q.issued_at)) 401 "Token has expired"
      csrf ← attempt unavailable q.random_csrf
      passed (record {
        identity = identity;
        csrf_token = csrf;
        created_at = q.created_at;
        expires_at = expiry_of identity q.issued_at;
      })

    -- `createSession` of the handler, up to the table.
    unfoldable pub prepare : SignIn → Handled DashboardSession
    prepare q = do
      token ← bearer q.authorization
      identity ← attempt (λ e. reply 401 "Token validation failed") (validate token)
      new_session q identity

    abbrev pub enter : SignIn → Sessions → Handled DashboardSession → Sessions × Handled String
    enter q t (refused response) = (t, refused response)
    enter q t (passed s) = (
      (add_session q.cleaned_at s q.random_id t).0,
      attempt unavailable (add_session q.cleaned_at s q.random_id t).1,
    )

    -- The table after it, and the ID in the cookie.
    unfoldable pub create_session : SignIn → Sessions → Sessions × Handled String
    create_session q t = enter q t (prepare q)
