-- ===== src/Facade/Routes.antt =====
-- internal/assignment/opensandboxapi/handler.go: `ServeHTTP` and `sandboxOperation`, which decide what
-- handles a request. `url.PathUnescape` is a parameter.
pub mod Laws
use opensandbox_aks_governan.Base.{
  ℕ, String, Bool, true, false, not, ◌&&◌, ◌||◌, Option, none, some, List, [], ◌∷◌, ◌==◌, string_eq,
  is_empty, cut_prefix, split, has_char, is_some, if◌then◌else◌, Result, ok, err,
}

-- `strings.TrimPrefix`.
abbrev pub trim_prefix : String → String → String
trim_prefix prefix s = elim (cut_prefix prefix s) [ none ↦ s | some rest ↦ rest ]

-- A decoded segment names a sandbox: it is neither empty nor has it a slash.
abbrev pub decoded_id : Result String → Option String
decoded_id (err _) = none
decoded_id (ok id) = if is_empty id || has_char b'/' id then none else some id

abbrev pub with_action : String → Option String → Option (String × String)
with_action action none = none
with_action action (some id) = some (id, action)

module _ (unescape : String → Result String) where
  abbrev pub named : String → String → Option (String × String)
  named first action =
      let found = with_action action (decoded_id (unescape first)) in
      if is_empty first then none else found

  abbrev pub operation_of : List String → Option (String × String)
  operation_of [] = none
  operation_of (first ∷ []) = named first ""
  operation_of (first ∷ action ∷ []) = named first action
  operation_of (_ ∷ _ ∷ _ ∷ _) = none

  -- The sandbox and the action of a path, if it names one.
  unfoldable pub sandbox_operation : String → Option (String × String)
  sandbox_operation path = operation_of (split b'/' (trim_prefix "/sandboxes/" path))

-- What becomes of a request; `authorized` proxies it once the caller may see the sandbox.
pub data Route : Type 0 where
  not_found create forbidden_list proxied : Route
  delete pause resume patch_metadata authorized : String → Route

-- The handler of an operation, where it has one.
abbrev pub handler_of : String → String → String → Option Route
handler_of method action id =
    if method == "DELETE" && action == ""
    then some (delete id)
    else if method == "POST" && action == "pause"
    then some (pause id)
    else if method == "POST" && action == "resume"
    then some (resume id)
    else if method == "PATCH" && action == "metadata"
    then some (patch_metadata id)
    else none

-- A request that no handler takes, with a caller authorizer or without.
abbrev pub forward : Bool → String → Option (String × String) → Route
forward false path operation = proxied
forward true path none = if path == "/sandboxes" then forbidden_list else proxied
forward true path (some (id, _)) = if path == "/sandboxes" then forbidden_list else authorized id

abbrev pub or_forward : Bool → String → Option (String × String) → Option Route → Route
or_forward guarded path operation (some route) = route
or_forward guarded path operation none = forward guarded path operation

abbrev pub handled : String → Option (String × String) → Option Route
handled method none = none
handled method (some (id, action)) = handler_of method action id

abbrev pub under_sandboxes : String → Bool
under_sandboxes path = path == "/sandboxes" || is_some (cut_prefix "/sandboxes/" path)

module _ (unescape : String → Result String) where
  abbrev pub route_path : Bool → String → String → Route
  route_path guarded method path =
      let rest =
        or_forward guarded path (sandbox_operation unescape path)
          (handled method (sandbox_operation unescape path)) in
      if not (under_sandboxes path)
      then not_found
      else if method == "POST" && path == "/sandboxes"
      then create
      else rest

  abbrev pub route_cut : Bool → String → Option String → Route
  route_cut guarded method none = not_found
  route_cut guarded method (some path) = route_path guarded method path

  -- `guarded` says whether there is a caller authorizer.
  unfoldable pub route : String → Bool → String → String → Route
  route prefix guarded method url = route_cut guarded method (cut_prefix prefix url)
