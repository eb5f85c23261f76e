-- ===== src/Facade/Lifecycle.antt =====
-- internal/assignment/opensandboxapi/handler.go: `pause`, `resume`, `delete`, `patchMetadata`,
-- `authorizedAssignment` and `waitReady`, against a store and an upstream with a state.
pub mod Laws
use opensandbox_aks_governan.Base.{
  ℕ, String, Bool, true, false, not, ◌&&◌, ◌||◌, Option, none, some, List, [], ◌∷◌, ◌≡◌, any,
  find_key, is_some, leb, ltb, if◌then◌else◌, ◌==◌, string_eq, is_empty, Error, not_found,
  already_exists, conflict, canceled, message, wrapped, Result, ok, err, is_ok,
}
use opensandbox_aks_governan.Cluster.{ObjectReference, Condition, ref_uid, assignment_label}

-- internal/assignment/types.go: `Assignment`.
pub record Assignment : Type 0 where
  pub namespace : String
  pub name : String
  pub uid : String
  pub resource_version : String
  pub template_name : String
  pub template_uid : String
  pub template_revision : String
  pub logical_tenant : String
  pub bundle_name : String
  pub sandbox_id : String
  pub idempotency_key : String
  pub request_hash : String
  pub created_at : ℕ
  pub existing : Bool
  pub deleting : Bool
  pub ready : Bool
  pub workload_ref : Option ObjectReference
  pub pod_ref : Option ObjectReference
  pub conditions : List Condition

-- What is written to the caller: a status and a text.
pub record Response : Type 0 where
  pub status : ℕ
  pub body : String

abbrev pub reply : ℕ → String → Response
reply status body = record { status = status; body = body }

-- A 2xx status.
abbrev pub success : ℕ → Bool
success status = leb 200 status && ltb status 300

-- `assignment.Store` in the handler's namespace, and OpenSandbox behind its client, in one world.
pub record Backend : Type 1 where
  pub World : Type 0
  pub by_sandbox : String → World → Result Assignment
  pub set_fence : String → Bool → String → World → World × Result (Unit {0})
  pub delete : String → World → World × Result (Unit {0})
  pub post : String → String → World → World × Result Response

-- `writeStoreError`.
unfoldable pub store_error : Error → Response
store_error not_found = reply 404 "Not Found"
store_error already_exists = reply 409 "Conflict"
store_error conflict = reply 500 "Internal Server Error"
store_error canceled = reply 500 "Internal Server Error"
store_error (message _) = reply 500 "Internal Server Error"
store_error (wrapped _ e) = store_error e

abbrev pub is_missing : Error → Bool
is_missing not_found = true
is_missing already_exists = false
is_missing conflict = false
is_missing canceled = false
is_missing (message _) = false
is_missing (wrapped _ e) = is_missing e

abbrev pub unavailable : Response
unavailable = reply 502 "OpenSandbox is unavailable"

-- The caller authorizer, if there is one, allows the assignment's tenant.
unfoldable pub authorize_assignment : Option (String → Result (Unit {0})) → Assignment → Bool
authorize_assignment none a = true
authorize_assignment (some check) a =
    not (is_empty a.logical_tenant) && is_ok (check a.logical_tenant)

-- `waitReady`: the answers of the polls until the time is over.
unfoldable pub wait_ready : Bool → List (Result Assignment) → Result (Unit {0})
wait_ready wanted [] = err (message "context deadline exceeded")
wait_ready wanted (answer ∷ rest) =
    let later = wait_ready wanted rest in
    elim answer [
      | err e ↦ err e
      | ok a ↦ if (a.ready && wanted) || (not a.ready && not wanted) then ok tt else later
    ]

-- `authorizedAssignment`: the assignment, or what is written instead.
pub data Found : Type 0 where
  found : Assignment → Found
  refusal : Response → Found

module _ (b : Backend) (authorizer : Option (String → Result (Unit {0}))) where
  abbrev pub found_answer : Result Assignment → Found
  found_answer (err e) =
      if is_missing e
      then refusal (reply 404 "sandbox assignment is unavailable")
      else refusal (store_error e)
  found_answer (ok a) =
      if authorize_assignment authorizer a
      then found a
      else refusal (reply 403 "caller is not authorized for the sandbox")

  unfoldable pub authorized_assignment : String → b.World → Found
  authorized_assignment id s = found_answer (b.by_sandbox id s)

  abbrev pub copied : b.World × Result Response → b.World × Response
  copied (s, err _) = (s, unavailable)
  copied (s, ok response) = (s, response)

  abbrev pub unpaused : String → b.World → b.World × Response
  unpaused name s = ((b.set_fence name false "" s).0, reply 503 "assignment did not become paused")

  abbrev pub after_wait : String → String → b.World → Result (Unit {0}) → b.World × Response
  after_wait id name s (err _) = unpaused name s
  after_wait id name s (ok _) = copied (b.post id "pause" s)

  abbrev pub after_fence :
      String → String → List (Result Assignment) → b.World × Result (Unit {0}) → b.World × Response
  after_fence id name polls (s, err e) = (s, store_error e)
  after_fence id name polls (s, ok _) = after_wait id name s (wait_ready false polls)

  abbrev pub pause_found : String → List (Result Assignment) → b.World → Found → b.World × Response
  pause_found id polls s (refusal response) = (s, response)
  pause_found id polls s (found a) = after_fence id a.name polls (b.set_fence a.name true "" s)

  unfoldable pub pause : String → List (Result Assignment) → b.World → b.World × Response
  pause id polls s = pause_found id polls s (authorized_assignment id s)

  -- A resume that OpenSandbox did not take pauses the assignment again.
  abbrev pub paused_again : String → b.World × Result Response → b.World × Response
  paused_again name (s, err _) = ((b.set_fence name true "" s).0, unavailable)
  paused_again name (s, ok response) =
      if success response.status then (s, response) else ((b.set_fence name true "" s).0, response)

  abbrev pub after_resume_fence : String → String → b.World × Result (Unit {0}) → b.World × Response
  after_resume_fence id name (s, err e) = (s, store_error e)
  after_resume_fence id name (s, ok _) = paused_again name (b.post id "resume" s)

  abbrev pub resume_found : String → b.World → Found → b.World × Response
  resume_found id s (refusal response) = (s, response)
  resume_found id s (found a) =
      after_resume_fence id a.name (b.set_fence a.name false (ref_uid a.pod_ref) s)

  unfoldable pub resume : String → b.World → b.World × Response
  resume id s = resume_found id s (authorized_assignment id s)

  abbrev pub deleted : b.World × Result (Unit {0}) → b.World × Response
  deleted (s, ok _) = (s, reply 204 "")
  deleted (s, err e) = if is_missing e then (s, reply 204 "") else (s, store_error e)

  abbrev pub delete_found : b.World → Found → b.World × Response
  delete_found s (refusal response) = (s, response)
  delete_found s (found a) = deleted (b.delete a.name s)

  unfoldable pub delete_sandbox : String → b.World → b.World × Response
  delete_sandbox id s = delete_found s (authorized_assignment id s)

-- A metadata patch is proxied, or refused.
pub data Patch : Type 0 where
  proxied : Patch
  refused : Response → Patch

abbrev pub template_extension : String
template_extension = "aks-sandbox.azure.com/template"

abbrev pub reserved : List (String × Option String) → Bool
reserved patch =
    is_some (find_key assignment_label patch) || is_some (find_key template_extension patch)

abbrev pub patch_body : Result (List (String × Option String)) → Patch
patch_body (err _) = refused (reply 400 "invalid metadata patch")
patch_body (ok patch) =
    if reserved patch then refused (reply 403 "governance metadata is reserved") else proxied

module _ (b : Backend) (authorizer : Option (String → Result (Unit {0}))) where
  abbrev pub patch_found : Result (List (String × Option String)) → Found → Patch
  patch_found body (refusal response) = refused response
  patch_found body (found a) = patch_body body

  unfoldable pub patch_metadata : String → Result (List (String × Option String)) → b.World → Patch
  patch_metadata id body s =
      let checked = patch_found body (authorized_assignment b authorizer id s) in
      if is_some authorizer then checked else patch_body body
