-- ===== src/Dashboard/Requester/Gates.antt =====
-- cmd/aks-sandbox-dashboard/requester_authorization.go: what `Middleware` serves about one sandbox.
use opensandbox_aks_governan.Base.{
  String, Bool, true, false, ◌&&◌, Option, none, some, ◌≡◌, refl, sym, subst, inl, inr, arith,
  eq_iff, Bool-cases, ◌==◌, string_eq,
}
use opensandbox_aks_governan.Dashboard.Principals.{AuthenticatedIdentity}
use opensandbox_aks_governan.Dashboard.Requester.{
  Authorized, denied, granted, Answers, denial_response, authorize_sandbox,
  authorize_aggregate_snapshots,
}
use opensandbox_aks_governan.Dashboard.Requester.Laws.{IsOwnSandbox, authorize_sandbox-IsOwnSandbox}
use opensandbox_aks_governan.Dashboard.Requester.Paths.{
  is_aggregate, sandbox_path_value, uses_snapshot_totals, relative_path, PathRequest, both, scoped,
  authorize_request, gate,
}

-- The paths that the switch names do not name a sandbox.
sandboxes-none : sandbox_path_value "/dashboard/sandboxes" ≡ none
unfolding sandbox_path_value
sandboxes-none = refl

snapshots-none : sandbox_path_value "/dashboard/snapshots" ≡ none
unfolding sandbox_path_value
snapshots-none = refl

at_none :
    (path literal : String)
    → sandbox_path_value literal ≡ none
    → (path == literal) ≡ true
    → sandbox_path_value path ≡ none
at_none path literal h same =
    subst (λ p. sandbox_path_value p ≡ none) (sym (ground (arith, eq_iff path literal))) h

is_aggregate-none : (path : String) → is_aggregate path ≡ true → sandbox_path_value path ≡ none
unfolding is_aggregate sandbox_path_value
is_aggregate-none path h = elim (Bool-cases (path == "/")) [
  | inl same ↦ at_none path "/" refl same
  | inr no_root ↦ elim (Bool-cases (path == "/stats")) [
    | inl same ↦ at_none path "/stats" refl same
    | inr no_stats ↦ elim (Bool-cases (path == "/snapshots")) [
      | inl same ↦ at_none path "/snapshots" refl same
      | inr no_snapshots ↦ elim (Bool-cases (path == "/dashboard/overview")) [
        | inl same ↦ at_none path "/dashboard/overview" refl same
        | inr no_overview ↦ elim (Bool-cases (path == "/dashboard/stats")) [
          | inl same ↦ at_none path "/dashboard/stats" refl same
          | inr other ↦ at_none path "/dashboard/snapshots" refl (ground (arith))
        ]
      ]
    ]
  ]
]

and_false : (b : Bool) → (b && false) ≡ false
and_false true = refl
and_false false = refl

served :
    (answer : Authorized (Unit {0}))
    → elim answer [ denied d ↦ some (denial_response d) | granted _ ↦ none ] ≡ none
    → answer ≡ granted tt
served (denied d) h = cc
served (granted u) h = refl

refuted :
    (path id : String) (test : Bool)
    → sandbox_path_value path ≡ some id
    → (test ≡ true → sandbox_path_value path ≡ none)
    → test ≡ false
refuted path id true names h = cc (h refl)
refuted path id false names h = refl

module _ (a : Answers) (who : Option AuthenticatedIdentity) where
  both-first :
      (first second : Authorized (Unit {0}))
      → both a who first second ≡ granted tt
      → first ≡ granted tt
  both-first (denied d) second h = cc
  both-first (granted u) second h = refl

  -- A path that names a sandbox leaves only the last two branches that authorize it.
  authorize_request-sandbox :
      (path : String) (q : PathRequest) (id : String)
      → sandbox_path_value path ≡ some id
      → authorize_request a who path q ≡ granted tt
      → authorize_sandbox a who id ≡ granted tt
  unfolding authorize_request
  authorize_request-sandbox path q id names h =
      let no_sandboxes =
        refuted path id (path == "/dashboard/sandboxes") names
          (at_none path "/dashboard/sandboxes" sandboxes-none) in
      let no_snapshots =
        refuted path id (path == "/dashboard/snapshots") names
          (at_none path "/dashboard/snapshots" snapshots-none) in
      let single = refuted path id (is_aggregate path) names (is_aggregate-none path) in
      let first = both-first (authorize_sandbox a who id) (authorize_aggregate_snapshots a who) in
      let post_none : (q.method == "POST" && false) ≡ false = and_false (q.method == "POST") in
      elim (Bool-cases (q.method == "GET" && uses_snapshot_totals path)) [
        | inl totals ↦ first (rw (no_sandboxes, post_none, single, totals, names) at h)
        | inr other ↦
            rw (no_sandboxes, post_none, single, other, no_snapshots, post_none, names) at h
      ]

  -- A request within the base path that the middleware serves and whose path names a sandbox is for a
  -- sandbox of one of the requester's tenants, by the only live assignment that names it.
  pub gate-IsOwnSandbox :
      (base_path : String) (q : PathRequest) (path id : String)
      → relative_path base_path q.path ≡ some path
      → sandbox_path_value path ≡ some id
      → gate a who base_path q ≡ none
      → IsOwnSandbox a who id
  unfolding gate
  gate-IsOwnSandbox base_path q path id relative names h = authorize_sandbox-IsOwnSandbox a who id (
      authorize_request-sandbox path q id names (
        subst (λ p. scoped a who q p ≡ granted tt) relative
          (served (scoped a who q (relative_path base_path q.path)) h)))
