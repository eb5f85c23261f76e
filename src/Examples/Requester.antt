-- ===== src/Examples/Requester.antt =====
-- A requester of the dashboard and the sandboxes of its tenants.
use opensandbox_aks_governan.Base.{
  String, false, ◌≡◌, refl, some, none, List, [], ◌∷◌, ok, err, not_found, trim_space,
}
use opensandbox_aks_governan.Cluster.{AssignmentObject, sandbox_id_annotation}
use opensandbox_aks_governan.Dashboard.Principals.{
  AuthenticatedIdentity, PrincipalBinding, load_principal_scopes,
}
use opensandbox_aks_governan.Dashboard.Requester.{
  Answers, Sandbox, requester_tenants, sandbox_allowed, sandbox_allowed_by_object, match_sandbox,
  authorize_sandbox, filter_allowed, filter_sandboxes,
}
use opensandbox_aks_governan.Dashboard.Requester.Laws.{IsRequester, IsOwnSandbox}
use opensandbox_aks_governan.Dashboard.Requester.Paths.{
  PathRequest, gate, authorize_request, is_aggregate, uses_snapshot_totals, sandbox_path_value,
}
use opensandbox_aks_governan.Dashboard.Requester.Gates.{gate-IsOwnSandbox}
use opensandbox_aks_governan.Dashboard.Requester.Client.{answered, list_sandboxes}
use opensandbox_aks_governan.Dashboard.Requester.Clients.{list_sandboxes-Kept}
use opensandbox_aks_governan.Dashboard.Requester.Naming.{Kept}
use opensandbox_aks_governan.Dashboard.Requester.Shown.{IsShown}
use opensandbox_aks_governan.Examples.Authorization.{assigned}

abbrev user : AuthenticatedIdentity
user = record {
  tenant_id = "tenant";
  object_id = "user";
  name = "User";
  roles = [];
  scopes = [];
  expires_at = 0;
}

abbrev binding : PrincipalBinding
binding = record {
  deleting = false;
  tenant_id = "tenant";
  object_id = "user";
  requester_tenants = "tenant-a" ∷ [];
  admin_tenants = [];
}

-- An assignment of a tenant, for a sandbox.
abbrev owned : String → String → AssignmentObject
owned tenant id = record assigned {
  logical_tenant = tenant;
  annotations = (sandbox_id_annotation, id) ∷ [];
}

abbrev answers : Answers
answers = record {
  bindings = ok (ok binding ∷ []);
  assignments = ok (ok (owned "tenant-a" "sandbox-a") ∷ ok (owned "tenant-b" "sandbox-b") ∷ []);
  assignment = λ name. err not_found;
  bundle = λ name. err not_found;
  template_bundle = err not_found;
  sandboxes = ok [];
  snapshots = ok [];
}

abbrev visit : PathRequest
visit = record { path = "/osb/sandboxes/sandbox-a/terminal"; method = "GET"; form_sandbox = ok "" }

visit_named : sandbox_path_value "/sandboxes/sandbox-a/terminal" ≡ some "sandbox-a"
unfolding sandbox_path_value
visit_named = refl

visit_served : gate answers (some user) "/osb" visit ≡ none
unfolding gate authorize_request is_aggregate uses_snapshot_totals sandbox_path_value
    authorize_sandbox requester_tenants load_principal_scopes sandbox_allowed match_sandbox
    trim_space
visit_served = refl

gate-IsOwnSandbox_example : IsOwnSandbox answers (some user) "sandbox-a"
gate-IsOwnSandbox_example =
    gate-IsOwnSandbox answers (some user) "/osb" visit "/sandboxes/sandbox-a/terminal" "sandbox-a"
      refl visit_named visit_served

abbrev mine : Sandbox
mine = record { id = "sandbox-a"; metadata = [] }

abbrev theirs : Sandbox
theirs = record { id = "sandbox-b"; metadata = [] }

listed_mine : list_sandboxes answers (some user) (ok (theirs ∷ mine ∷ [])) ≡ answered (mine ∷ [])
unfolding list_sandboxes filter_sandboxes filter_allowed sandbox_allowed_by_object requester_tenants
    load_principal_scopes match_sandbox trim_space
listed_mine = refl

list_sandboxes-Kept_example :
    (tenants : List String) × IsRequester answers (some user) tenants
    × Kept (IsShown answers tenants) (theirs ∷ mine ∷ []) (mine ∷ [])
list_sandboxes-Kept_example =
    list_sandboxes-Kept answers (some user) (theirs ∷ mine ∷ []) (mine ∷ []) listed_mine
