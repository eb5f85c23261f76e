-- ===== src/Dashboard/Requester/Shown.antt =====
-- cmd/aks-sandbox-dashboard/requester_authorization.go: which sandboxes `sandboxAllowedByObject` shows.
use opensandbox_aks_governan.Base.{
  String, Bool, true, false, string_eq, none, List, [], ◌∷◌, ◌≡◌, inl, inr, refl, sym, ap, subst,
  ◌∙◌, contains, trim_space, Bool-cases, Result, ok, err, Alone,
}
use opensandbox_aks_governan.Cluster.{AssignmentObject, BundleObject, lookup_text, assignment_label}
use opensandbox_aks_governan.Facade.Templates.{tenant_of_bundle}
use opensandbox_aks_governan.Dashboard.Requester.{
  Authorized, denied, granted, Lookup, found, unbound, failed, Answers, Sandbox, is_blank,
  named_tenant, bundle_logical_tenant, match_sandbox, live_assignment, assignment_for_sandbox,
  tenant_of, allowed_in, sandbox_allowed_by_object, keep_if, filter_allowed,
}
use opensandbox_aks_governan.Dashboard.Requester.Naming.{
  found_is, granted_is, Kept, kept_none, kept_one, left_out, IsNaming, match-Alone, Alone-match,
}

module _ (a : Answers) where
  -- The tenant of an assignment: the one that it names, or else the one that its bundle names.
  pub data IsTenant (o : AssignmentObject) (tenant : String) : Type 0 where
    its_own :
        is_blank o.logical_tenant ≡ false → tenant ≡ trim_space o.logical_tenant → IsTenant o tenant
    the_bundles :
        (b : BundleObject)
        → is_blank o.logical_tenant ≡ true
        → a.bundle o.bundle_name ≡ ok b
        → is_blank (tenant_of_bundle b) ≡ false
        → tenant ≡ tenant_of_bundle b
        → IsTenant o tenant

  bundle-found :
      (name tenant : String) (answer : Result BundleObject)
      → elim answer [ err e ↦ failed | ok b ↦ named_tenant a (tenant_of_bundle b) ] ≡ found tenant
      → (b : BundleObject) × (answer ≡ ok b)
        × (is_blank (tenant_of_bundle b) ≡ false)
        × (tenant ≡ tenant_of_bundle b)
  bundle-found name tenant (err e) h = cc
  bundle-found name tenant (ok b) h = elim (Bool-cases (is_blank (tenant_of_bundle b))) [
    | inl blank ↦ absurd (cc (rw blank at h))
    | inr named ↦ (b, refl, named, sym (found_is (rw named at h)))
  ]

  tenant_of-IsTenant :
      (o : AssignmentObject) (tenant : String)
      → tenant_of a (found o) ≡ found tenant
      → IsTenant o tenant
  unfolding bundle_logical_tenant
  tenant_of-IsTenant o tenant h = elim (Bool-cases (is_blank o.logical_tenant)) [
    | inl blank ↦
        let (b, got, named, same) =
          bundle-found o.bundle_name tenant (a.bundle o.bundle_name) (rw blank at h) in
        the_bundles b blank got named same
    | inr own ↦ its_own own (sym (found_is (rw own at h)))
  ]

  bundle-tenant :
      (name : String) (b : BundleObject)
      → a.bundle name ≡ ok b
      → is_blank (tenant_of_bundle b) ≡ false
      → bundle_logical_tenant a name ≡ found (tenant_of_bundle b)
  unfolding bundle_logical_tenant
  bundle-tenant name b got named =
      subst
        (λ z.
          elim z [ err e ↦ failed | ok c ↦ named_tenant a (tenant_of_bundle c) ]
          ≡ found (tenant_of_bundle b))
        (sym got) (rw named refl)

  IsTenant-tenant_of :
      (o : AssignmentObject) (tenant : String)
      → IsTenant o tenant
      → tenant_of a (found o) ≡ found tenant
  IsTenant-tenant_of o tenant (its_own own same) = rw (own, same) refl
  IsTenant-tenant_of o tenant (the_bundles b blank got named same) =
      rw blank (bundle-tenant o.bundle_name b got named ∙ ap found (sym same))

  -- The assignment of a sandbox: the one that its metadata names, or else the only one naming it.
  pub data IsAssigned (s : Sandbox) (o : AssignmentObject) : Type 0 where
    labelled :
        is_blank (lookup_text assignment_label s.metadata) ≡ false
        → a.assignment (trim_space (lookup_text assignment_label s.metadata)) ≡ ok (false, ok o)
        → IsAssigned s o
    by_id :
        (list : List (Result AssignmentObject))
        → is_blank (lookup_text assignment_label s.metadata) ≡ true
        → a.assignments ≡ ok list
        → Alone (IsNaming s.id) list o
        → IsAssigned s o

  listed-Alone :
      (id : String) (o : AssignmentObject) (answer : Result (List (Result AssignmentObject)))
      → elim answer [ err e ↦ failed | ok list ↦ match_sandbox a id none list ] ≡ found o
      → (list : List (Result AssignmentObject)) × (answer ≡ ok list) × Alone (IsNaming id) list o
  listed-Alone id o (err e) h = cc
  listed-Alone id o (ok list) h = (list, refl, match-Alone a id list o h)

  live_assignment-found :
      (o : AssignmentObject) (answer : Result (Bool × Result AssignmentObject))
      → live_assignment a answer ≡ found o
      → answer ≡ ok (false, ok o)
  live_assignment-found o (err e) h = cc
  live_assignment-found o (ok (true, c)) h = cc
  live_assignment-found o (ok (false, err e)) h = cc
  live_assignment-found o (ok (false, ok p)) h = ap (λ z. ok (false, ok z)) (found_is h)

  assignment-IsAssigned :
      (s : Sandbox) (o : AssignmentObject) → assignment_for_sandbox a s ≡ found o → IsAssigned s o
  assignment-IsAssigned s o h =
      elim (Bool-cases (is_blank (lookup_text assignment_label s.metadata))) [
        | inl blank ↦
            let (list, got, alone) = listed-Alone s.id o a.assignments (rw blank at h) in
            by_id list blank got alone
        | inr named ↦ labelled named (live_assignment-found o _ (rw named at h))
      ]

  IsAssigned-assignment :
      (s : Sandbox) (o : AssignmentObject) → IsAssigned s o → assignment_for_sandbox a s ≡ found o
  IsAssigned-assignment s o (labelled named got) = rw (named, got) refl
  IsAssigned-assignment s o (by_id list blank got alone) = rw blank (
      subst (λ z. elim z [ err e ↦ failed | ok l ↦ match_sandbox a s.id none l ] ≡ found o)
        (sym got) (Alone-match a s.id list o alone))

  -- A sandbox of one of these tenants.
  pub record IsShown (tenants : List String) (s : Sandbox) : Type 0 where
    pub assignment : AssignmentObject
    pub assigned : IsAssigned s assignment
    pub tenant : String
    pub its_tenant : IsTenant assignment tenant
    pub theirs : contains tenants tenant ≡ true

  looked_up :
      (tenants : List String) (lookup : Lookup String)
      → allowed_in a tenants lookup ≡ granted true
      → (tenant : String) × (lookup ≡ found tenant) × (contains tenants tenant ≡ true)
  looked_up tenants (found tenant) h = (tenant, refl, granted_is h)
  looked_up tenants unbound h = cc
  looked_up tenants failed h = cc

  of_assignment :
      (tenant : String) (lookup : Lookup AssignmentObject)
      → tenant_of a lookup ≡ found tenant
      → (o : AssignmentObject) × (lookup ≡ found o) × IsTenant o tenant
  of_assignment tenant (found o) h = (o, refl, tenant_of-IsTenant o tenant h)
  of_assignment tenant unbound h = cc
  of_assignment tenant failed h = cc

  allowed-IsShown :
      (tenants : List String) (s : Sandbox)
      → sandbox_allowed_by_object a tenants s ≡ granted true
      → IsShown tenants s
  unfolding sandbox_allowed_by_object
  allowed-IsShown tenants s h =
      let (tenant, of_tenant, theirs) =
        looked_up tenants (tenant_of a (assignment_for_sandbox a s)) h in
      let (o, assigned, its_tenant) = of_assignment tenant (assignment_for_sandbox a s) of_tenant in
      record {
        assignment = o;
        assigned = assignment-IsAssigned s o assigned;
        tenant = tenant;
        its_tenant = its_tenant;
        theirs = theirs;
      }

  IsShown-allowed :
      (tenants : List String) (s : Sandbox)
      → IsShown tenants s
      → sandbox_allowed_by_object a tenants s ≡ granted true
  unfolding sandbox_allowed_by_object
  IsShown-allowed tenants s shown =
      let found_tenant =
        ap (tenant_of a) (IsAssigned-assignment s shown.assignment shown.assigned)
        ∙ IsTenant-tenant_of shown.assignment shown.tenant shown.its_tenant in
      ap (allowed_in a tenants) found_tenant ∙ ap granted shown.theirs

  keep_if-granted :
      (s : Sandbox) (b : Bool) (rest : Authorized (List Sandbox)) (out : List Sandbox)
      → keep_if a s b rest ≡ granted out
      → (others : List Sandbox) × (rest ≡ granted others)
  keep_if-granted s b (denied d) out h = absurd (cc)
  keep_if-granted s b (granted others) out h = (others, refl)

  filtered_one :
      (tenants : List String) (s : Sandbox) (b : Bool) (list others out : List Sandbox)
      → sandbox_allowed_by_object a tenants s ≡ granted b
      → keep_if a s b (granted others) ≡ granted out
      → Kept (IsShown tenants) list others
      → Kept (IsShown tenants) (s ∷ list) out
  filtered_one tenants s true list others out same h kept =
      subst (Kept (IsShown tenants) (s ∷ list)) (granted_is h)
        (kept_one (allowed-IsShown tenants s same) kept)
  filtered_one tenants s false list others out same h kept =
      subst (Kept (IsShown tenants) (s ∷ list)) (granted_is h)
        (left_out (λ shown. cc (IsShown-allowed tenants s shown, same)) kept)

  -- A list of sandboxes that passes the filter is what is shown of it.
  pub filter_allowed-Kept :
      (tenants : List String) (list out : List Sandbox)
      → filter_allowed a (sandbox_allowed_by_object a tenants) list ≡ granted out
      → Kept (IsShown tenants) list out
  unfolding filter_allowed
  filter_allowed-Kept tenants [] out h = subst (Kept (IsShown tenants) []) (granted_is h) kept_none
  filter_allowed-Kept tenants (s ∷ rest) out h =
      from (λ others kept. filter_allowed-Kept tenants rest others kept)
        (sandbox_allowed_by_object a tenants s) refl h
    where
      from :
          ((others : List Sandbox)
            → filter_allowed a (sandbox_allowed_by_object a tenants) rest ≡ granted others
            → Kept (IsShown tenants) rest others)
          → (answer : Authorized Bool) → sandbox_allowed_by_object a tenants s ≡ answer
          → elim answer [
            | denied d ↦ denied d
            | granted b ↦
                keep_if a s b (filter_allowed a (sandbox_allowed_by_object a tenants) rest)
          ]
            ≡ granted out
          → Kept (IsShown tenants) (s ∷ rest) out
      from tail (denied d) same k = absurd (cc)
      from tail (granted b) same k =
          let (others, got) =
            keep_if-granted s b (filter_allowed a (sandbox_allowed_by_object a tenants) rest) out
              k in
          filtered_one tenants s b rest others out same (sym (ap (keep_if a s b) got) ∙ k)
            (tail others got)
