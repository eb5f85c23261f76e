-- ===== src/Facade/Templates.antt =====
-- internal/assignment/opensandboxapi/template.go: `Resolve`. A bundle and a template have a spec; what
-- the API server, the converter and the hash answer is as for the controller.
pub mod Laws
use opensandbox_aks_governan.Base.{
  ℕ, ℤ, pos, le_int, String, Bool, true, false, not, Option, none, some, List, ◌-◌, ◌^◌, ◌==◌,
  string_eq, is_empty, Error, message, Result, ok, err, ◌>>=◌, ◌>>◌, require, wrap_error,
}
use opensandbox_aks_governan.Cluster.{BundleObject, BundleSpec}
use opensandbox_aks_governan.Controller.Objects.{TemplateSpec, TemplateObject, Reads, Library}
use opensandbox_aks_governan.Controller.Reconcile.{governed_tenant}

pub record ResolvedTemplate : Type 0 where
  pub name : String
  pub uid : String
  pub revision : String
  pub image : String
  pub entrypoint : List String
  pub cpu : String
  pub memory : String
  pub timeout_seconds : ℤ
  pub bundle_name : String
  pub bundle_revision : String
  pub logical_tenant : String

-- A missing governance section reads as the empty tenant.
abbrev pub tenant_text : Option String → String
tenant_text none = ""
tenant_text (some t) = t

abbrev pub tenant_of_bundle : BundleObject → String
tenant_of_bundle b = tenant_text (governed_tenant b.spec.governance)

module _ (l : Library) (r : Reads) where
  unfoldable pub resolve : String → Result ResolvedTemplate
  resolve name = do
    t ← r.template name
    require (not t.deleting) "sandbox template is deleting"
    wrap_error "decode sandbox template" (l.template_converts t)
    require t.spec.enabled "sandbox template is disabled"
    require (le_int t.spec.timeout_seconds (pos (2 ^ 63 - 1)))
        "sandbox template timeout exceeds platform integer range"
    b ← wrap_error "get sandbox template capability bundle" (r.bundle t.spec.bundle_name)
    require (not b.deleting) "sandbox template capability bundle is deleting"
    bundle_revision ←
        wrap_error "hash sandbox template capability bundle" (l.bundle_revision b.spec)
    require (bundle_revision == t.spec.bundle_revision)
        "sandbox template capability bundle revision is stale"
    revision ← wrap_error "hash sandbox template" (l.template_revision t.spec)
    require (not (is_empty (tenant_of_bundle b)))
        "sandbox template capability bundle has no logical tenant"
    ok (record {
      name = t.name;
      uid = t.uid;
      revision = revision;
      image = t.spec.image;
      entrypoint = t.spec.entrypoint;
      cpu = t.spec.cpu;
      memory = t.spec.memory;
      timeout_seconds = t.spec.timeout_seconds;
      bundle_name = t.spec.bundle_name;
      bundle_revision = bundle_revision;
      logical_tenant = tenant_of_bundle b;
    })
