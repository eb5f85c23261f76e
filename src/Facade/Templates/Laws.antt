-- ===== src/Facade/Templates/Laws.antt =====
-- A resolved template, and the controller's view of an assignment that is created from it.
use opensandbox_aks_governan.Base.{
  String, true, false, not, ◌||◌, Option, none, some, ◌≡◌, sym, ap, ◌∙◌, arith, ◌==◌, string_eq,
  eq_iff, is_empty, Error, ok, Result-cases, inl, inr,
}
use opensandbox_aks_governan.Cluster.{AssignmentObject, BundleObject}
use opensandbox_aks_governan.Controller.Objects.{
  TemplateSpec, TemplateObject, Reads, Library, Config,
}
use opensandbox_aks_governan.Controller.Reconcile.{
  go, resolve_template, boundary_mismatch, governed_tenant, is_tenant,
}
use opensandbox_aks_governan.Facade.Templates.{
  ResolvedTemplate, tenant_text, tenant_of_bundle, resolve,
}

-- The template and the bundle that a resolved template was read from.
pub record IsResolved (l : Library) (r : Reads) (name : String) (out : ResolvedTemplate)
    (t : TemplateObject) (b : BundleObject) : Type 0 where
  pub template_found : r.template name ≡ ok t
  pub template_kept : t.deleting ≡ false
  pub converts : l.template_converts t ≡ ok tt
  pub enabled : t.spec.enabled ≡ true
  pub bundle_found : r.bundle t.spec.bundle_name ≡ ok b
  pub bundle_kept : b.deleting ≡ false
  pub bundle_hash : l.bundle_revision b.spec ≡ ok t.spec.bundle_revision
  pub template_hash : l.template_revision t.spec ≡ ok out.revision
  pub governed : is_empty (tenant_of_bundle b) ≡ false
  pub same_uid : out.uid ≡ t.uid
  pub same_bundle : out.bundle_name ≡ t.spec.bundle_name
  pub same_tenant : out.logical_tenant ≡ tenant_of_bundle b

module _ (l : Library) (r : Reads) where
  -- A template is resolved only if it and its bundle are there, not deleted, enabled, of the
  -- revisions that they name, and governed by a tenant; the result is about these objects.
  pub resolve_sound :
      (name : String) (out : ResolvedTemplate)
      → resolve l r name ≡ ok out
      → (t : TemplateObject) × (b : BundleObject) × IsResolved l r name out t b
  unfolding resolve
  resolve_sound name out h = elim (Result-cases (r.template name)) [
    | inr (e, bad) ↦ absurd (ground (arith))
    | inl (t, template) ↦ elim (Result-cases (r.bundle t.spec.bundle_name)) [
      | inr (e, bad) ↦ absurd (ground (arith))
      | inl (b, bundle) ↦ elim (Result-cases (l.bundle_revision b.spec)) [
        | inr (e, bad) ↦ absurd (ground (arith))
        | inl (hash, hashed) ↦ elim (Result-cases (l.template_revision t.spec)) [
          | inr (e, bad) ↦ absurd (ground (arith))
          | inl (revision, revised) ↦
              (t, b, resolved t b hash revision template bundle hashed revised)
        ]
      ]
    ]
  ]
    where
      resolved :
          (t : TemplateObject) (b : BundleObject) (hash revision : String)
          → r.template name ≡ ok t
          → r.bundle t.spec.bundle_name ≡ ok b
          → l.bundle_revision b.spec ≡ ok hash
          → l.template_revision t.spec ≡ ok revision
          → IsResolved l r name out t b
      resolved t b hash revision template bundle hashed revised =
          let fits : hash ≡ t.spec.bundle_revision =
            ground (arith, eq_iff hash t.spec.bundle_revision) in
          record {
            template_found = template;
            template_kept = ground (arith);
            converts = ground (arith);
            enabled = ground (arith);
            bundle_found = bundle;
            bundle_kept = ground (arith);
            bundle_hash = hashed ∙ ap ok fits;
            template_hash = ground (arith);
            governed = ground (arith);
            same_uid = ground (arith);
            same_bundle = ground (arith);
            same_tenant = ground (arith);
          }

  template_accepted :
      (status_text : Error → String) (c : Config) (o : AssignmentObject) (t : TemplateObject)
      → is_empty o.template_ref.name ≡ false
      → r.template o.template_ref.name ≡ ok t
      → t.deleting ≡ false
      → l.template_converts t ≡ ok tt
      → l.template_revision t.spec ≡ ok o.template_ref.spec_revision
      → t.spec.enabled ≡ true
      → o.template_ref.uid ≡ t.uid
      → o.bundle_name ≡ t.spec.bundle_name
      → resolve_template l status_text c r o ≡ go (some t.spec)
  unfolding resolve_template
  template_accepted status_text c o t named there kept converts revised enabled uid bundle =
      ground (
        arith,
        eq_iff t.uid o.template_ref.uid,
        eq_iff o.template_ref.spec_revision o.template_ref.spec_revision,
        eq_iff t.spec.bundle_name o.bundle_name,
      )

  governed_fits :
      (t : TemplateSpec) (o : AssignmentObject) (b : BundleObject)
      → is_empty (tenant_of_bundle b) ≡ false
      → o.logical_tenant ≡ tenant_of_bundle b
      → boundary_mismatch o b.spec t.bundle_revision (some t) ≡ false
  governed_fits t o b governed same = fits (governed_tenant b.spec.governance) governed same
    where
      fits :
          (owner : Option String)
          → is_empty (tenant_text owner) ≡ false
          → o.logical_tenant ≡ tenant_text owner
          → (not (t.bundle_revision == t.bundle_revision)
              || is_empty o.logical_tenant
              || not (is_tenant o.logical_tenant owner))
            ≡ false
      fits none k e = absurd (cc)
      fits (some owner) k e =
          ground (arith, eq_iff t.bundle_revision t.bundle_revision, eq_iff o.logical_tenant owner)

  -- While the template and the bundle stay as they are, the controller accepts the template of every
  -- assignment that names a resolved template, its revision, its bundle and its tenant, and finds
  -- that template, tenant and bundle fit together.
  pub resolve-resolve_template :
      (status_text : Error → String) (c : Config) (out : ResolvedTemplate) (o : AssignmentObject)
      → resolve l r o.template_ref.name ≡ ok out
      → is_empty o.template_ref.name ≡ false
      → o.template_ref.uid ≡ out.uid
      → o.template_ref.spec_revision ≡ out.revision
      → o.bundle_name ≡ out.bundle_name
      → o.logical_tenant ≡ out.logical_tenant
      → (t : TemplateObject) × (b : BundleObject) × (resolve_template l status_text c r o
          ≡ go (some t.spec))
        × (r.bundle o.bundle_name ≡ ok b)
        × (boundary_mismatch o b.spec t.spec.bundle_revision (some t.spec) ≡ false)
  resolve-resolve_template status_text c out o h named uid revision bundle tenant =
      let (t, b, i) = resolve_sound o.template_ref.name out h in
      (
        t,
        b,
        template_accepted status_text c o t named i.template_found i.template_kept i.converts
            (i.template_hash ∙ ap ok (sym revision)) i.enabled (uid ∙ i.same_uid)
            (bundle ∙ i.same_bundle),
        ap r.bundle (bundle ∙ i.same_bundle) ∙ i.bundle_found,
        governed_fits t.spec o b i.governed (tenant ∙ i.same_tenant),
      )
