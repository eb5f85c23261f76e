-- ===== src/Examples/Store.antt =====
-- A store whose server holds one assignment.
use opensandbox_aks_governan.Base.{
  String, true, ◌&&◌, Option, none, some, [], ◌≡◌, refl, arith, if◌then◌else◌, ◌==◌, string_eq,
  eq_iff, not_found, already_exists, message, Result, ok, err,
}
use opensandbox_aks_governan.Cluster.{AssignmentObject}
use opensandbox_aks_governan.Facade.Lifecycle.{reply}
use opensandbox_aks_governan.Facade.Lifecycle.Laws.{BackendLaws}
use opensandbox_aks_governan.Facade.Create.{StoreRequest}
use opensandbox_aks_governan.Examples.Authorization.{assigned}
use opensandbox_aks_governan.Examples.Controller.{protected_bundle}
use opensandbox_aks_governan.Store.{
  NewAssignment, Server, reused, convert, object_of, create, backend_of,
}
use opensandbox_aks_governan.Store.Laws.{
  ServerLaws, fence_of, backend_of-BackendLaws, create-create,
}

abbrev World : Type 0
World = Option AssignmentObject

abbrev read : String → World → Result AssignmentObject
read name none = err not_found
read name (some o) = if o.name == name then ok o else err not_found

abbrev write : AssignmentObject → World → World × Result (Unit {0})
write o none = (none, err not_found)
write o (some p) = if p.name == o.name then (some o, ok tt) else (some p, err not_found)

abbrev object_for : NewAssignment → String → AssignmentObject
object_for v name = record assigned {
  name = name;
  annotations = v.annotations;
  template_ref = v.template_ref;
  logical_tenant = v.logical_tenant;
  bundle_name = v.bundle_name;
}

abbrev add_named : NewAssignment → Option String → World → World × Result AssignmentObject
add_named v none s = (s, err (message "a name is needed"))
add_named v (some name) none = (some (object_for v name), ok (object_for v name))
add_named v (some name) (some p) = (some p, err already_exists)

abbrev server : Server
server = record {
  World = World;
  bundle = λ name s. ok protected_bundle;
  get = read;
  create = λ v s. add_named v v.name s;
  update = write;
  delete = λ name s. (none, ok tt);
  cached = λ s. [];
  labelled = λ id s. ok [];
  version = λ o. "1";
}

read-name : (name : String) (s : World) (o : AssignmentObject) → read name s ≡ ok o → o.name ≡ name
read-name name none o h = absurd (cc)
read-name name (some p) o h = ground (arith, eq_iff p.name name)

write-read :
    (o : AssignmentObject) (s : World) → (write o s).1 ≡ ok tt → read o.name (write o s).0 ≡ ok o
write-read o none h = absurd (cc)
write-read o (some p) h = ground (arith, eq_iff p.name o.name, eq_iff o.name o.name)

create_read :
    (v : NewAssignment) (chosen : Option String) (name : String) (s : World) (o : AssignmentObject)
    → chosen ≡ some name
    → (add_named v chosen s).1 ≡ ok o
    → (read name (add_named v chosen s).0 ≡ ok o)
      × (o.annotations ≡ v.annotations)
      × (o.logical_tenant ≡ v.logical_tenant)
create_read v none name s o e h = absurd (cc)
create_read v (some n) name none o e h =
    (ground (arith, eq_iff n name), ground (arith), ground (arith))
create_read v (some n) name (some p) o e h = absurd (cc)

create_taken :
    (v : NewAssignment) (chosen : Option String) (name : String) (s : World) (o : AssignmentObject)
    → chosen ≡ some name
    → read name s ≡ ok o
    → add_named v chosen s ≡ (s, err already_exists)
create_taken v none name s o e h = absurd (cc)
create_taken v (some n) name none o e h = absurd (cc)
create_taken v (some n) name (some p) o e h = refl

server_laws : ServerLaws server
server_laws = record {
  get-name = read-name;
  get-update = λ o s h. (o, write-read o s h, refl, refl);
  get-create = λ v name s o e h. create_read v v.name name s o e h;
  bundle-create = λ v name s. refl;
  create-existing = λ v name s o e h. create_taken v v.name name s o e h;
}

backend_of-BackendLaws_example :
    BackendLaws
      (backend_of server "system" 4 (λ id action s. (s, ok (reply 200 ""))))
      (λ name s. fence_of (read name s))
backend_of-BackendLaws_example =
    backend_of-BackendLaws server "system" server_laws 4 (λ id action s. (s, ok (reply 200 "")))
      (λ name id action s. refl)

abbrev first_request : StoreRequest
first_request = record {
  name = "operation-0";
  template_name = "shell";
  template_uid = "template-uid";
  template_revision = "sha256:1";
  logical_tenant = "team-a";
  bundle_name = "bundle-a";
  idempotency_key = "key-0001";
  request_hash = "sha256:2";
}

abbrev other_request : StoreRequest
other_request = record first_request { request_hash = "sha256:3" }

abbrev stored : AssignmentObject
stored = object_for (object_of server "system" first_request) "operation-0"

create-create_example : create server "system" other_request (some stored) ≡ (
  some stored,
  (if first_request.idempotency_key == other_request.idempotency_key
        && first_request.request_hash == other_request.request_hash
        && first_request.logical_tenant == other_request.logical_tenant
      then ok (record (convert server "system" stored) { existing = true })
      else err reused),
)
create-create_example =
    create-create server "system" server_laws first_request other_request none stored
      protected_bundle refl refl refl refl refl
