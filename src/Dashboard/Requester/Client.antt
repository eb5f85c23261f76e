-- ===== src/Dashboard/Requester/Client.antt =====
-- cmd/aks-sandbox-dashboard/requester_authorization.go: `authorizedDashboardClient` around a client. The calls that
-- name a sandbox share one guard; `ListSandboxNodeLoads` and `Close`, which pass on what the client
-- answers, have no definition.
use opensandbox_aks_governan.Base.{String, Bool, true, false, Option, List, Result, ok, err}
use opensandbox_aks_governan.Dashboard.Principals.{AuthenticatedIdentity}
use opensandbox_aks_governan.Dashboard.Requester.{
  Denial, forbidden, Authorized, denied, granted, Answers, Sandbox, Snapshot, authorize_sandbox,
  requester_tenants, with_tenants, snapshot_allowed, filter_sandboxes, filter_snapshots,
}

-- The answer of a call: the requester may not, the client failed, or its result.
pub data Answer {ℓ} (A : Type ℓ) : Type ℓ where
  refused : Denial → Answer A
  broken : Answer A
  answered : A → Answer A

abbrev pub answer {ℓ} : {A : Type ℓ} → Result A → Answer A
answer (err e) = broken
answer (ok value) = answered value

abbrev pub authorized {ℓ} : {A : Type ℓ} → Authorized A → Answer A
authorized (denied d) = refused d
authorized (granted value) = answered value

module _ (a : Answers) (who : Option AuthenticatedIdentity) where
  -- A call about one sandbox: `ListPodEvents`, `DeleteSandbox`, `PauseSandbox`, `ResumeSandbox`,
  -- `CreateSnapshot`, `OpenPTY`, `RunCommand`.
  unfoldable pub guarded {ℓ} : {A : Type ℓ} → String → Result A → Answer A
  guarded id base = elim (authorize_sandbox a who id) [
    | denied d ↦ refused d
    | granted _ ↦ answer base
  ]

  unfoldable pub list_sandboxes : Result (List Sandbox) → Answer (List Sandbox)
  list_sandboxes (err e) = broken
  list_sandboxes (ok list) = authorized (filter_sandboxes a who list)

  unfoldable pub list_snapshots : Result (List Snapshot) → Answer (List Snapshot)
  list_snapshots (err e) = broken
  list_snapshots (ok list) = authorized (filter_snapshots a who list)

  abbrev pub if_allowed : Snapshot → Bool → Authorized Snapshot
  if_allowed s true = granted s
  if_allowed s false = denied forbidden

  abbrev pub authorize_snapshot : Snapshot → Authorized Snapshot
  authorize_snapshot s = with_tenants a (requester_tenants a who) (λ tenants.
      elim (snapshot_allowed a tenants s) [
        | denied d ↦ denied d
        | granted here ↦ if_allowed s here
      ])

  unfoldable pub get_snapshot : Result Snapshot → Answer Snapshot
  get_snapshot (err e) = broken
  get_snapshot (ok s) = authorized (authorize_snapshot s)

  -- `DeleteSnapshot`, for what the client answers to the read and then to the deletion by an ID.
  unfoldable pub delete_snapshot :
      Result Snapshot → (String → Result (Unit {0})) → Answer (Unit {0})
  delete_snapshot read delete = elim (get_snapshot read) [
    | refused d ↦ refused d
    | broken ↦ broken
    | answered s ↦ answer (delete s.id)
  ]

  -- `ListRecentSandboxEvents`.
  unfoldable pub list_recent_events {ℓ} :
      {A : Type ℓ} → (List Sandbox → Result A) → List Sandbox → Answer A
  list_recent_events events list = elim (filter_sandboxes a who list) [
    | denied d ↦ refused d
    | granted kept ↦ answer (events kept)
  ]

-- `CreateSandbox` leaves the check to the middleware.
abbrev create_sandbox {ℓ} : {A : Type ℓ} → Result A → Answer A
create_sandbox base = answer base
