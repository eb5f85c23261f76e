-- ===== src/Dashboard/Sessions/Gate.antt =====
-- cmd/aks-sandbox-dashboard/auth.go: `Middleware`, `publicPath` and `shouldRedirectToLogin`. A missing cookie is
-- none; the cookie's removal and the cleared query of the sign-in's redirect are left out.
use Prim.Native.String.{[], ◌∷◌, ◌++◌}
use opensandbox_aks_governan.Base.{
  ℕ, String, Bool, not, ◌&&◌, ◌||◌, Option, none, some, List, contains, if◌then◌else◌, ◌==◌,
  string_eq, is_empty, cut_prefix, is_some,
}
use opensandbox_aks_governan.Dashboard.Principals.{AuthenticatedIdentity}
use opensandbox_aks_governan.Dashboard.Sessions.{DashboardSession, Sessions, get_session, after_get}

-- What the middleware does with a request: it serves it without an identity, serves it with the
-- identity and the CSRF token of a session, or refuses it.
pub data Served : Type 0 where
  publicly : Served
  signed_in : AuthenticatedIdentity → String → Served
  to_login : Served
  unauthorized : Served

pub record PageRequest : Type 0 where
  pub path : String
  pub method : String
  pub upgrade : String
  pub hx_request : String
  pub accept : String
  pub cookie : Option String

-- `strings.Contains`.
abbrev pub has_text : String → String → Bool
has_text text [] = is_empty text
has_text text (c ∷ s) = is_some (cut_prefix text (c ∷ s)) || has_text text s

unfoldable pub public_path : String → String → Bool
public_path base_path path =
    contains
      (List.◌∷◌ (base_path ++ "/login") (
        List.◌∷◌ (base_path ++ "/auth/login") (
          List.◌∷◌ (base_path ++ "/auth/redirect/") (
            List.◌∷◌ (base_path ++ "/auth/config") (
              List.◌∷◌ (base_path ++ "/auth/pkce.js") (
                List.◌∷◌ (base_path ++ "/auth/session")
                  (List.◌∷◌ (base_path ++ "/healthz") List.[])))))))
      path
    || is_some (cut_prefix (base_path ++ "/assets/") path)

unfoldable pub should_redirect_to_login : (String → String → Bool) → PageRequest → Bool
should_redirect_to_login equal_fold q =
    q.method == "GET"
    && not (equal_fold q.upgrade "websocket")
    && not (equal_fold q.hx_request "true")
    && (is_empty q.accept || has_text "text/html" q.accept)

module _ (digest : String → String) (equal_fold : String → String → Bool) (base_path : String) where
  abbrev pub turned_away : PageRequest → Served
  turned_away q = if should_redirect_to_login equal_fold q then to_login else unauthorized

  abbrev pub with_session : PageRequest → Option DashboardSession → Served
  with_session q none = turned_away q
  with_session q (some s) = signed_in s.identity s.csrf_token

  abbrev pub with_cookie : ℕ → PageRequest → Sessions → Option String → Served × Sessions
  with_cookie now q t none = (turned_away q, t)
  with_cookie now q t (some raw) =
      (with_session q (get_session digest now raw t), after_get digest now raw t)

  -- What happens to a request at an instant, and the table after it.
  unfoldable pub middleware : ℕ → PageRequest → Sessions → Served × Sessions
  middleware now q t =
      if public_path base_path q.path then (publicly, t) else with_cookie now q t q.cookie
