-- ===== src/Examples/Dashboard.antt =====
-- Access requests through the dashboard.
use opensandbox_aks_governan.Base.{
  ℕ, ◌+◌, ◌*◌, ◌/◌, ◌≤◌, pos, String, true, false, ◌≡◌, refl, some, none, List, [], ◌∷◌, ok, arith,
  times64, trim_space, ◌==◌, string_eq,
}
use opensandbox_aks_governan.Api.{
  second, SandboxAccessRequestSpec, SandboxAccessRequestStatus, SandboxAccessRequest,
  SandboxEgressEvent, SandboxTenantPolicy,
}
use opensandbox_aks_governan.Cluster.{BundleObject}
use opensandbox_aks_governan.Admission.{matching}
use opensandbox_aks_governan.Governance.Target.{
  normalize_target, normalize_host, host_name, address_or_labels, strip_brackets, trim_dot,
  host_label, method_pattern, normalize_path, splits_host_port,
}
use opensandbox_aks_governan.Governance.Request.{
  validate_human_text, validate_optional_text, validate_identity, contains_control,
  validate_access_request_spec,
}
use opensandbox_aks_governan.Authz.Grants.{matched, judge_request}
use opensandbox_aks_governan.Dashboard.Handled.{passed}
use opensandbox_aks_governan.Dashboard.Principals.{
  AuthenticatedIdentity, PrincipalBinding, load_principal_scopes,
}
use opensandbox_aks_governan.Dashboard.Forms.{
  Mutation, Form, parse_mutation, parse_duration_minutes, atoi,
}
use opensandbox_aks_governan.Dashboard.Forms.Mutations.{IsOwnMutation, parse_mutation-IsOwnMutation}
use opensandbox_aks_governan.Dashboard.Requests.{
  Site, Reads, pending_state, duplicate_in, approver_of,
}
use opensandbox_aks_governan.Dashboard.Requests.Decisions.{
  approved_status, decision_form, decidable_request, access_budget, check_approval, sign, approval,
  approve_access_request,
}
use opensandbox_aks_governan.Dashboard.Requests.Submissions.{
  denied_event, check_event, check_spec, creation_form, creation, spec_of,
}
use opensandbox_aks_governan.Dashboard.Requests.Lawful.{IsLawful, approval-IsLawful}
use opensandbox_aks_governan.Dashboard.Requests.Proposals.{IsProposal, creation-IsProposal}
use opensandbox_aks_governan.Dashboard.Requests.Grants.{
  StoresTimes, stored_request, IsAbout, approval-judge_request,
}
use opensandbox_aks_governan.Dashboard.States.{
  approve, Run, done, write, after_expiry, rank, Run-rank, expire,
}
use opensandbox_aks_governan.Audit.Cleanup.{is_expired}
use opensandbox_aks_governan.Examples.Sample.{sample}
use opensandbox_aks_governan.Examples.Requests.{wanted, asked}
use opensandbox_aks_governan.Examples.Authorization.{assigned}

abbrev boss : AuthenticatedIdentity
boss = record {
  tenant_id = "00000000-0000-0000-0000-000000000001";
  object_id = "00000000-0000-0000-0000-000000000003";
  name = "Boss";
  roles = "Admin" ∷ [];
  scopes = [];
  expires_at = 0;
}

abbrev site : Site
site = record {
  public_origin = "https://dashboard";
  admin_role = "Admin";
  equal_fold = λ a b. a == b;
  error_text = λ e. "error";
  is_forbidden = λ e. false;
}

abbrev binding : PrincipalBinding
binding = record {
  deleting = false;
  tenant_id = "00000000-0000-0000-0000-000000000001";
  object_id = "00000000-0000-0000-0000-000000000003";
  requester_tenants = "tenant-a" ∷ [];
  admin_tenants = "tenant-a" ∷ [];
}

abbrev pending_one : SandboxAccessRequest
pending_one = record {
  name = "request-a";
  deleting = false;
  spec = wanted;
  status = record {
    state = pending_state;
    approver = none;
    decision_reason = "";
    approved_at = none;
    expires_at = none;
  };
}

abbrev denied_one : SandboxEgressEvent
denied_one = record {
  name = "event-a";
  assignment_ref = record { name = "assignment-a"; uid = "uid-a" };
  sandbox_id = "sandbox-a";
  pod_uid = "pod-a";
  capability_bundle_name = "bundle-a";
  capability_bundle_revision = "sha256:0";
  logical_tenant = "tenant-a";
  team = "";
  backend = "source-control";
  method = "GET";
  host = "github.com";
  path = "/org/repo";
  allowed = false;
  decision_source = "deny";
}

abbrev policy : SandboxTenantPolicy
policy = record {
  deleting = false;
  spec = record {
    logical_tenant = "tenant-a";
    workload_namespace = "sandboxes";
    allowed_capability_bundles = [];
    allowed_capability_bundle_prefixes = [];
    max_concurrent_sandboxes = pos 1;
    max_lifetime_seconds = pos 3600;
    max_access_request_duration_seconds = pos 900;
    max_cpu = "1";
    max_memory = "1Gi";
    enabled = true;
  };
}

abbrev tenant_bundle : BundleObject
tenant_bundle = record {
  name = "bundle-a";
  uid = "bundle-uid";
  deleting = false;
  finalizers = [];
  spec = record {
    governance = some (record {
      logical_tenant = "tenant-a";
      team = "";
      permission_level = "";
      display_name = "";
    });
    egress = none;
  };
}

abbrev reads : Reads
reads = record {
  bindings = ok (ok binding ∷ []);
  event = λ name. ok (ok denied_one);
  request = λ name. ok (ok pending_one);
  requests = ok [];
  assignment = λ name. ok assigned;
  assignment_later = λ name. ok assigned;
  bundle = λ name. ok tenant_bundle;
  policies = ok (ok policy ∷ []);
  now = 100 * second;
}

abbrev decision_fields : Form
decision_fields =
    ("csrf", "token" ∷ []) ∷ ("decisionReason", "needed" ∷ []) ∷ ("durationMinutes", "5" ∷ []) ∷ []

abbrev posted : Form → Mutation
posted form = record {
  raw_query = "";
  origin = "https://dashboard";
  fetch_site = "same-origin";
  content_type = "application/x-www-form-urlencoded; charset=utf-8";
  post_form = ok form;
  csrf_token = some "token";
}

abbrev decision_names : List String
decision_names = "csrf" ∷ "decisionReason" ∷ "durationMinutes" ∷ []

decision_parsed :
    parse_mutation sample site.equal_fold site.public_origin decision_names (posted decision_fields)
    ≡ passed decision_fields
unfolding parse_mutation trim_space
decision_parsed = refl

parse_mutation-IsOwnMutation_example :
    IsOwnMutation sample site.equal_fold site.public_origin decision_names
      (posted decision_fields)
      decision_fields
parse_mutation-IsOwnMutation_example =
    parse_mutation-IsOwnMutation sample site.equal_fold site.public_origin decision_names
      (posted decision_fields) decision_fields decision_parsed

abbrev approved_now : SandboxAccessRequestStatus
approved_now =
    approved_status sample site reads (100 * second) (400 * second)
      (approver_of sample site reads boss) "needed"

approved_run :
    approval sample site reads (some boss) (posted decision_fields) "request-a"
    ≡ passed (pending_one, approved_now)
unfolding approval decision_form decidable_request check_approval access_budget sign parse_mutation
    parse_duration_minutes atoi load_principal_scopes matching trim_space times64
    validate_access_request_spec normalize_target normalize_host host_name address_or_labels
    strip_brackets trim_dot host_label method_pattern normalize_path splits_host_port
    validate_human_text validate_optional_text validate_identity contains_control
approved_run = refl

abbrev whole_second : ℕ → ℕ
whole_second t = t / second * second

whole_second-StoresTimes : StoresTimes whole_second
whole_second-StoresTimes = record {
  earlier = λ t. omega arith;
  monotone = λ s t h. omega arith;
  whole = λ t n. omega arith;
}

asked-IsAbout : IsAbout asked wanted
asked-IsAbout = record {
  assignment_uid = refl;
  assignment_name = refl;
  pod = refl;
  revision = refl;
  backend = refl;
  method = refl;
  host = refl;
  path = refl;
}

approval-judge_request_example :
    judge_request sample asked (200 * second) (stored_request whole_second pending_one approved_now)
    ≡ matched "request-a"
approval-judge_request_example =
    approval-judge_request sample site reads whole_second whole_second-StoresTimes (some boss)
      (posted decision_fields) "request-a" pending_one approved_now approved_run (omega arith) refl
      asked asked-IsAbout (400 * second) refl (200 * second) (omega arith) (omega arith)

abbrev creation_fields : Form
creation_fields =
    ("csrf", "token" ∷ [])
    ∷ ("eventName", "event-a" ∷ [])
    ∷ ("reason", "read the repository" ∷ [])
    ∷ ("durationMinutes", "10" ∷ [])
    ∷ []

abbrev created_spec : SandboxAccessRequestSpec
created_spec = spec_of sample site reads boss denied_one "read the repository" (pos (600 * second))

created_run : creation sample site reads (some boss) (posted creation_fields) ≡ passed created_spec
unfolding creation creation_form denied_event check_event check_spec duplicate_in parse_mutation
    parse_duration_minutes atoi load_principal_scopes matching trim_space times64
    validate_access_request_spec normalize_target normalize_host host_name address_or_labels
    strip_brackets trim_dot host_label method_pattern normalize_path splits_host_port
    validate_human_text validate_optional_text validate_identity contains_control
created_run = refl

creation-IsProposal_example :
    IsProposal sample site reads (some boss) (posted creation_fields) created_spec
creation-IsProposal_example =
    creation-IsProposal sample site reads (some boss) (posted creation_fields) created_spec
      created_run

abbrev approved_one : SandboxAccessRequest
approved_one = record pending_one { status = approved_now }

approve_written :
    (approve_access_request sample site reads
      (λ q. ok tt)
      (some boss)
      (posted decision_fields)
      "request-a").1
    ≡ some approved_one
unfolding approve_access_request approval decision_form decidable_request check_approval
    access_budget sign parse_mutation parse_duration_minutes atoi load_principal_scopes matching
    trim_space times64 validate_access_request_spec normalize_target normalize_host host_name
    address_or_labels strip_brackets trim_dot host_label method_pattern normalize_path
    splits_host_port validate_human_text validate_optional_text validate_identity contains_control
approve_written = refl

expiry_due :
    is_expired
      (500 * second)
      (λ name. ok tt)
      (stored_request whole_second approved_one approved_now)
    ≡ true
unfolding is_expired
expiry_due = refl

two_writes :
    Run sample site whole_second pending_one 2
      (after_expiry (stored_request whole_second approved_one approved_now))
two_writes =
    write
      (approve reads (λ q. ok tt) (some boss) (posted decision_fields) "request-a" pending_one
        approved_one refl approve_written)
      (write (expire (500 * second) (λ name. ok tt) _ expiry_due) (done _))

Run-rank_example :
    rank (after_expiry (stored_request whole_second approved_one approved_now)) + 2
    ≤ rank pending_one
Run-rank_example = Run-rank sample site whole_second two_writes

approval-IsLawful_example :
    IsLawful sample site reads
      (some boss)
      (posted decision_fields)
      "request-a"
      pending_one
      approved_now
approval-IsLawful_example =
    approval-IsLawful sample site reads (some boss) (posted decision_fields) "request-a" pending_one
      approved_now approved_run
