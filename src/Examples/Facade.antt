-- ===== src/Examples/Facade.antt =====
-- Requests to the OpenSandbox facade.
use opensandbox_aks_governan.Base.{
  List, split, pos, String, Bool, true, false, none, some, [], ◌∷◌, ◌≡◌, ◌≢◌, ◌↔◌, refl, Result, ok,
  trim_space,
}
use opensandbox_aks_governan.Cluster.{BundleObject, AssignmentObject}
use opensandbox_aks_governan.Controller.Objects.{TemplateObject, Reads}
use opensandbox_aks_governan.Controller.Reconcile.{go, resolve_template, boundary_mismatch}
use opensandbox_aks_governan.Examples.Controller.{library, reads, no_text, config, protected_bundle}
use opensandbox_aks_governan.Examples.Authorization.{assigned}
use opensandbox_aks_governan.Facade.Routes.{
  trim_prefix, route, proxied, authorized, under_sandboxes, sandbox_operation,
}
use opensandbox_aks_governan.Facade.Routes.Laws.{IsUnnamed, route-proxied_iff}
use opensandbox_aks_governan.Facade.Lifecycle.{Assignment, reply, Backend, template_extension}
use opensandbox_aks_governan.Facade.Lifecycle.Laws.{BackendLaws}
use opensandbox_aks_governan.Facade.Templates.{ResolvedTemplate, resolve}
use opensandbox_aks_governan.Facade.Templates.Laws.{resolve-resolve_template}
use opensandbox_aks_governan.Facade.Create.{SdkRequest, Answers, create, bind_request, govern}
use opensandbox_aks_governan.Facade.Create.Laws.{forwarded_of, IsGoverned, create-IsGoverned}

-- Paths without an escape.
abbrev plain : String → Result String
plain s = ok s

three_segments : route plain "/opensandbox" true "GET" "/opensandbox/sandboxes/x/files/y" ≡ proxied
unfolding route sandbox_operation
three_segments = refl

one_segment : route plain "/opensandbox" true "GET" "/opensandbox/sandboxes/x" ≡ authorized "x"
unfolding route sandbox_operation
one_segment = refl

abbrev other_path : String
other_path = "/sandboxes/x/files/y"

route-proxied_iff_example :
    (route plain "/opensandbox" true "GET" "/opensandbox/sandboxes/x/files/y" ≡ proxied) ↔ (
      (under_sandboxes "/sandboxes/x/files/y" ≡ true)
      × (other_path ≢ "/sandboxes")
      × IsUnnamed plain (split b'/' (trim_prefix "/sandboxes/" "/sandboxes/x/files/y")))
route-proxied_iff_example =
    route-proxied_iff plain "/opensandbox" "GET" "/opensandbox/sandboxes/x/files/y"
      "/sandboxes/x/files/y" refl

abbrev pub running : Assignment
running = record {
  namespace = "system";
  name = "assignment-a";
  uid = "uid-a";
  resource_version = "1";
  template_name = "shell";
  template_uid = "template-uid";
  template_revision = "sha256:1";
  logical_tenant = "team-a";
  bundle_name = "bundle-a";
  sandbox_id = "sandbox-a";
  idempotency_key = "";
  request_hash = "";
  created_at = 0;
  existing = false;
  deleting = false;
  ready = true;
  workload_ref = none;
  pod_ref = some (record {
    api_version = "v1";
    kind = "Pod";
    namespace = "sandboxes";
    name = "pod-a";
    uid = "pod-uid";
  });
  conditions = [];
}

-- A store of one assignment, whose state is the fence.
abbrev pub backend : Backend
backend = record {
  World = Bool × String;
  by_sandbox = λ id s. ok running;
  set_fence = λ name paused uid s. ((paused, uid), ok tt);
  delete = λ name s. (s, ok tt);
  post = λ id action s. (s, ok (reply 200 ""));
}

abbrev pub fence_of : String → Bool × String → Bool × String
fence_of name s = s

abbrev backend_laws : BackendLaws backend fence_of
backend_laws = record {
  fence-set = λ name uid paused s h. refl;
  fence-post = λ name id action s. refl;
}

abbrev pub shell : TemplateObject
shell = record {
  name = "shell";
  uid = "template-uid";
  deleting = false;
  spec = record {
    display_name = "Shell";
    description = "";
    image = "registry/shell:1";
    entrypoint = "sh" ∷ [];
    bundle_name = "bundle-a";
    bundle_revision = "sha256:0";
    cpu = "1";
    memory = "1Gi";
    timeout_seconds = pos 600;
    enabled = true;
  };
}

abbrev pub tenant_bundle : BundleObject
tenant_bundle = record protected_bundle {
  spec = record {
    governance =
        some (record {
          logical_tenant = "team-a";
          team = "";
          permission_level = "";
          display_name = "";
        });
    egress = none;
  };
}

abbrev pub tenant_reads : Reads
tenant_reads = record reads { template = λ name. ok shell; bundle = λ name. ok tenant_bundle }

abbrev pub resolved_shell : ResolvedTemplate
resolved_shell = record {
  name = "shell";
  uid = "template-uid";
  revision = "sha256:1";
  image = "registry/shell:1";
  entrypoint = "sh" ∷ [];
  cpu = "1";
  memory = "1Gi";
  timeout_seconds = pos 600;
  bundle_name = "bundle-a";
  bundle_revision = "sha256:0";
  logical_tenant = "team-a";
}

resolve_run : resolve library tenant_reads "shell" ≡ ok resolved_shell
unfolding resolve
resolve_run = refl

abbrev from_shell : AssignmentObject
from_shell = record assigned {
  template_ref = record { name = "shell"; uid = "template-uid"; spec_revision = "sha256:1" };
  logical_tenant = "team-a";
}

resolve-resolve_template_example :
    (t : TemplateObject) × (b : BundleObject) × (resolve_template library no_text config
        tenant_reads from_shell
      ≡ go (some t.spec))
    × (tenant_reads.bundle from_shell.bundle_name ≡ ok b)
    × (boundary_mismatch from_shell b.spec t.spec.bundle_revision (some t.spec) ≡ false)
resolve-resolve_template_example =
    resolve-resolve_template library tenant_reads no_text config resolved_shell from_shell
      resolve_run refl refl refl refl refl

abbrev wanted : SdkRequest
wanted = record {
  image = none;
  snapshot_id = "";
  timeout = none;
  resource_limits = [];
  resource_requests = none;
  entrypoint = [];
  network_policy = none;
  credential_proxy = none;
  volumes = "host" ∷ [];
  platform = none;
  env = [];
  metadata = [];
  extensions = (template_extension, "shell") ∷ [];
}

abbrev answers : Answers
answers = record {
  resolve = resolve library tenant_reads;
  authorize = none;
  admission = none;
  hash = λ v t. ok "sha256:2";
  operation_name = λ tenant key. "operation-0";
  store_create = λ v. ok running;
  store_get = λ name. ok running;
  store_delete = λ name. ok tt;
  set_sandbox_id = λ name id. ok tt;
  encode = λ v. ok tt;
  upstream = λ v. ok (record { status = 202; body = "{}"; created_id = some "sandbox-a" });
  encode_created = λ t up. ok up.body;
  encode_replay = λ t made. ok made.sandbox_id;
}

abbrev sent : SdkRequest
sent = bind_request running resolved_shell (govern resolved_shell wanted)

create_run : forwarded_of (create answers false 0 0 "" (ok wanted)).effects ≡ sent ∷ []
unfolding create resolve trim_space
create_run = refl

create-IsGoverned_example :
    (t : ResolvedTemplate) × (made : Assignment) × IsGoverned answers "" wanted t made sent
    × (◌≡◌ {A = List SdkRequest} [] [])
create-IsGoverned_example = create-IsGoverned answers false 0 0 "" wanted sent [] create_run
