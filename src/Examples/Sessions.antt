-- ===== src/Examples/Sessions.antt =====
-- Sign-ins and sessions of the dashboard.
use Prim.Native.String
use opensandbox_aks_governan.Base.{
  ℕ, String, Bool, ◌≡◌, refl, some, none, [], ◌∷◌, ok, err, message, Result, arith, trim_space,
  cut_prefix, if◌then◌else◌, ◌==◌, string_eq,
}
use opensandbox_aks_governan.Dashboard.Handled.{passed}
use opensandbox_aks_governan.Dashboard.Principals.{AuthenticatedIdentity}
use opensandbox_aks_governan.Dashboard.Sessions.{
  DashboardSession, Sessions, SignIn, cleanup, get_session, new_session, prepare, create_session,
}
use opensandbox_aks_governan.Dashboard.Sessions.Laws.{IsGuarded}
use opensandbox_aks_governan.Dashboard.Sessions.Gate.{
  signed_in, PageRequest, public_path, middleware,
}
use opensandbox_aks_governan.Dashboard.Sessions.Reached.{
  Reached, started, sign_in, Reached-IsGuarded, IsSession, middleware-IsSession,
}
use opensandbox_aks_governan.Dashboard.Sessions.SignIns.{IsEntered, create_session-get_session}

abbrev digest : String → String
digest raw = String.◌++◌ "#" raw

abbrev equal_fold : String → String → Bool
equal_fold a b = a == b

abbrev user : AuthenticatedIdentity
user = record {
  tenant_id = "tenant";
  object_id = "user";
  name = "User";
  roles = [];
  scopes = [];
  expires_at = 100;
}

abbrev validate : String → Result AuthenticatedIdentity
validate token = if token == "jwt" then ok user else err (message "invalid")

abbrev first_bytes : ℕ → String → String × String
first_bytes n s = elim (cut_prefix "Bearer " s) [ none ↦ ("", s) | some rest ↦ ("Bearer ", rest) ]

abbrev visit : SignIn
visit = record {
  authorization = "Bearer jwt";
  issued_at = 10;
  tested_at = 10;
  created_at = 11;
  cleaned_at = 11;
  random_csrf = ok "csrf";
  random_id = ok "id";
}

abbrev entered_session : DashboardSession
entered_session = record { identity = user; csrf_token = "csrf"; created_at = 11; expires_at = 40 }

abbrev entered_table : Sessions
entered_table = ("#id", entered_session) ∷ []

sign_in_run :
    create_session digest equal_fold validate first_bytes 30 visit [] ≡ (entered_table, passed "id")
unfolding create_session prepare new_session cleanup trim_space
sign_in_run = refl

visit_Reached : Reached digest equal_fold validate first_bytes 30 (visit ∷ []) entered_table
unfolding create_session prepare new_session cleanup trim_space
visit_Reached = sign_in visit started

Reached-IsGuarded_example :
    IsGuarded digest equal_fold validate first_bytes 30 (visit ∷ []) entered_table
Reached-IsGuarded_example =
    Reached-IsGuarded digest equal_fold validate first_bytes 30 (omega arith) visit_Reached

abbrev page : PageRequest
page = record {
  path = "/access";
  method = "GET";
  upgrade = "";
  hx_request = "";
  accept = "";
  cookie = some "id";
}

page_served : (middleware digest equal_fold "" 20 page entered_table).0 ≡ signed_in user "csrf"
unfolding middleware public_path get_session
page_served = refl

middleware-IsSession_example :
    IsSession digest equal_fold validate first_bytes 30
      (visit ∷ [])
      entered_table
      20
      page
      user
      "csrf"
middleware-IsSession_example =
    middleware-IsSession digest equal_fold validate first_bytes 30 "" (omega arith) (visit ∷ [])
      entered_table 20 page user "csrf" visit_Reached page_served

returned_id : (create_session digest equal_fold validate first_bytes 30 visit []).1 ≡ passed "id"
unfolding create_session prepare new_session cleanup trim_space
returned_id = refl

create_session-get_session_example :
    (s : DashboardSession) × IsEntered digest equal_fold validate first_bytes 30 visit []
      (create_session digest equal_fold validate first_bytes 30 visit []).0
      "id"
      s
create_session-get_session_example =
    create_session-get_session digest equal_fold validate first_bytes 30 visit [] "id" returned_id
      refl
