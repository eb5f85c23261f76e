-- ===== src/Dashboard/Requester/Clients.antt =====
-- cmd/aks-sandbox-dashboard/requester_authorization.go: what `authorizedDashboardClient` answers.
use opensandbox_aks_governan.Base.{String, Option, List, ◌≡◌, refl, Result, ok}
use opensandbox_aks_governan.Dashboard.Principals.{AuthenticatedIdentity}
use opensandbox_aks_governan.Dashboard.Requester.{
  Authorized, denied, granted, Answers, Sandbox, authorize_sandbox, requester_tenants, with_tenants,
  sandbox_allowed_by_object, filter_allowed, filter_sandboxes,
}
use opensandbox_aks_governan.Dashboard.Requester.Laws.{
  IsRequester, IsOwnSandbox, requester_tenants-IsRequester, authorize_sandbox-IsOwnSandbox,
}
use opensandbox_aks_governan.Dashboard.Requester.Naming.{Kept}
use opensandbox_aks_governan.Dashboard.Requester.Shown.{IsShown, filter_allowed-Kept}
use opensandbox_aks_governan.Dashboard.Requester.Client.{
  refused, answered, answer, authorized, guarded, list_sandboxes,
}

module _ (a : Answers) (who : Option AuthenticatedIdentity) where
  -- A call about a sandbox is made only for a sandbox of one of the requester's tenants, and answers
  -- what the client does.
  pub guarded-IsOwnSandbox {ℓ} :
      {A : Type ℓ} (id : String) (base : Result A) (value : A)
      → guarded a who id base ≡ answered value
      → IsOwnSandbox a who id × (answer base ≡ answered value)
  unfolding guarded
  guarded-IsOwnSandbox id base value h = from (authorize_sandbox a who id) refl h
    where
      from :
          (allowed : Authorized (Unit {0}))
          → authorize_sandbox a who id ≡ allowed
          → elim allowed [ denied d ↦ refused d | granted _ ↦ answer base ] ≡ answered value
          → IsOwnSandbox a who id × (answer base ≡ answered value)
      from (denied d) same k = absurd (cc)
      from (granted u) same k = (authorize_sandbox-IsOwnSandbox a who id same, k)

  authorized-granted {ℓ} :
      {A : Type ℓ} (allowed : Authorized A) (value : A)
      → authorized allowed ≡ answered value
      → allowed ≡ granted value
  authorized-granted (denied d) value h = absurd (cc)
  authorized-granted (granted v) value h = cc

  -- A list of sandboxes that is answered is the part of the client's list, in its order, of the
  -- sandboxes of the requester's tenants: exactly those whose assignment, the live one that the
  -- sandbox's metadata names or else the only live one that names the sandbox, has a tenant, its own
  -- or else its bundle's, that the requester's binding gives.
  pub list_sandboxes-Kept :
      (list out : List Sandbox)
      → list_sandboxes a who (ok list) ≡ answered out
      → (tenants : List String) × IsRequester a who tenants × Kept (IsShown a tenants) list out
  unfolding list_sandboxes filter_sandboxes
  list_sandboxes-Kept list out h =
      from (requester_tenants a who) refl (authorized-granted (filter_sandboxes a who list) out h)
    where
      from :
          (answer : Authorized (List String))
          → requester_tenants a who ≡ answer
          → with_tenants a answer
              (λ tenants. filter_allowed a (sandbox_allowed_by_object a tenants) list)
            ≡ granted out
          → (tenants : List String) × IsRequester a who tenants × Kept (IsShown a tenants) list out
      from (denied d) same k = absurd (cc)
      from (granted tenants) same k = (
        tenants,
        requester_tenants-IsRequester a who tenants same,
        filter_allowed-Kept a tenants list out k,
      )
