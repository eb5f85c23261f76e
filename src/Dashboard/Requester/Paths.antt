-- ===== src/Dashboard/Requester/Paths.antt =====
-- cmd/aks-sandbox-dashboard/requester_authorization.go: `Middleware` and the paths that it tells apart.
use Prim.Native.String.{[], ◌∷◌, ◌++◌}
use opensandbox_aks_governan.Base.{
  String, Bool, false, not, ◌&&◌, ◌||◌, Option, none, some, if◌then◌else◌, ◌==◌, string_eq,
  is_empty, break_at, cut_prefix, is_some, trim_space, Result, ok, err,
}
use opensandbox_aks_governan.Facade.Lifecycle.{Response}
use opensandbox_aks_governan.Dashboard.Principals.{AuthenticatedIdentity}
use opensandbox_aks_governan.Dashboard.Requester.{
  unavailable, Authorized, denied, granted, Answers, denial_response, authorize_sandbox,
  authorize_aggregate_sandboxes, authorize_aggregate_snapshots, authorize_template,
}

abbrev pub with_slash : String → String
with_slash path =
    if is_empty path then "/" else if is_some (cut_prefix "/" path) then path else "/" ++ path

-- `relativePath`.
abbrev pub relative_path : String → String → Option String
relative_path base_path path = elim (cut_prefix base_path path) [
  | none ↦ none
  | some rest ↦ some (with_slash rest)
]

-- `isAggregateSandboxPath`.
unfoldable pub is_aggregate : String → Bool
is_aggregate path =
    path == "/"
    || path == "/stats"
    || path == "/snapshots"
    || path == "/dashboard/overview"
    || path == "/dashboard/stats"
    || path == "/dashboard/snapshots"

-- `pathHead`.
abbrev pub path_head : String → String
path_head value = elim (break_at b'/' value) [ none ↦ value | some parts ↦ parts.0 ]

abbrev pub has_slash : String → Bool
has_slash value = is_some (break_at b'/' value)

-- `strings.HasSuffix`.
abbrev pub has_suffix : String → String → Bool
has_suffix suffix [] = suffix == ""
has_suffix suffix (c ∷ s) = suffix == (c ∷ s) || has_suffix suffix s

abbrev pub shows_totals : String → Option String → Bool
shows_totals path none = false
shows_totals path (some rest) =
    not (is_empty rest) && (rest == path_head rest || has_suffix "/fragment" path)

-- `usesSandboxSnapshotTotals`.
unfoldable pub uses_snapshot_totals : String → Bool
uses_snapshot_totals path = elim (cut_prefix "/sandboxes/" path) [
  | some rest ↦ not (has_slash rest)
  | none ↦ shows_totals path (cut_prefix "/dashboard/sandboxes/" path)
]

abbrev pub head_of : Option String → Option String
head_of none = none
head_of (some rest) = if is_empty (path_head rest) then none else some (path_head rest)

abbrev pub first_of : Option String → Option String → Option String
first_of none other = other
first_of (some value) other = some value

-- `sandboxPathValue`.
unfoldable pub sandbox_path_value : String → Option String
sandbox_path_value path =
    first_of (head_of (cut_prefix "/sandboxes/" path))
      (head_of (cut_prefix "/dashboard/sandboxes/" path))

-- A request, with what `ParseForm` and then `FormValue("sandboxID")` give.
pub record PathRequest : Type 0 where
  pub path : String
  pub method : String
  pub form_sandbox : Result String

module _ (a : Answers) (who : Option AuthenticatedIdentity) where
  abbrev pub both : Authorized (Unit {0}) → Authorized (Unit {0}) → Authorized (Unit {0})
  both (denied d) second = denied d
  both (granted _) second = second

  abbrev pub authorize_path : Option String → Authorized (Unit {0})
  authorize_path none = granted tt
  authorize_path (some id) = authorize_sandbox a who id

  abbrev pub authorize_totals : Option String → Authorized (Unit {0})
  authorize_totals none = granted tt
  authorize_totals (some id) =
      both (authorize_sandbox a who id) (authorize_aggregate_snapshots a who)

  abbrev pub authorize_form : Result String → Authorized (Unit {0})
  authorize_form (err e) = denied unavailable
  authorize_form (ok value) =
      if is_empty (trim_space value) then granted tt else authorize_sandbox a who (trim_space value)

  -- The switch, on a path relative to the base path.
  unfoldable pub authorize_request : String → PathRequest → Authorized (Unit {0})
  authorize_request path q =
      if q.method == "POST" && path == "/dashboard/sandboxes"
      then authorize_template a who
      else if is_aggregate path
      then both (authorize_aggregate_sandboxes a who) (authorize_aggregate_snapshots a who)
      else if q.method == "GET" && uses_snapshot_totals path
      then authorize_totals (sandbox_path_value path)
      else if q.method == "POST" && path == "/dashboard/snapshots"
      then authorize_form q.form_sandbox
      else authorize_path (sandbox_path_value path)

  abbrev pub scoped : PathRequest → Option String → Authorized (Unit {0})
  scoped q none = granted tt
  scoped q (some path) = authorize_request path q

  -- `Middleware`: the request is served, or this response is written.
  unfoldable pub gate : String → PathRequest → Option Response
  gate base_path q = elim (scoped q (relative_path base_path q.path)) [
    | denied d ↦ some (denial_response d)
    | granted _ ↦ none
  ]
