-- ===== src/Examples/Authorization.antt =====
-- Token review and authorization.
use opensandbox_aks_governan.Base.{
  arith, ℕ, String, Bool, true, false, ◌≡◌, refl, Option, none, some, [], ◌∷◌, ◌+◌, ◌*◌, Result, ok,
  err, ◌==◌, string_eq, not_found,
}
use opensandbox_aks_governan.Api.{second}
use opensandbox_aks_governan.Cluster.{
  Pod, ServiceAccount, AssignmentObject, BundleObject, BundleSpec, expression, eligible_label,
}
use opensandbox_aks_governan.Authz.Decision.{CheckInput, Decision, empty_decision}
use opensandbox_aks_governan.Authz.Tokens.{
  ReviewedIdentity, TokenReview, Tokens, read_review, review_token, review_cached, finish_review,
  remember,
}
use opensandbox_aks_governan.Authz.Tokens.Laws.{IsGenuine, IsRecent, review_token_backed}
use opensandbox_aks_governan.Authz.Programs.{Cel, build_program, program_for}
use opensandbox_aks_governan.Authz.Programs.Laws.{IsFaithful, program_for-IsFaithful}
use opensandbox_aks_governan.Authz.Admit.{
  View, admit, admit_pod, admit_source, admit_account, admit_assignment, admit_bundle, differs,
  pods_with_uid, assignments_of_pod, service_accounts_of, bundles_named, source_matches_pod,
  base_decision,
}
use opensandbox_aks_governan.Authz.Check.{
  CelInput, Checker, Instants, Outcome, audited, check, check_body, after_review, after_admit,
  evaluate, after_program, after_eval, finish_check, unix_epoch,
}
use opensandbox_aks_governan.Authz.Check.Laws.{IsJustified, check_sound}
use opensandbox_aks_governan.Examples.Sample.{sample}

abbrev pub review : TokenReview
review = record {
  authenticated = true;
  error = "";
  audiences = "gateway" ∷ [];
  username = "system:serviceaccount:sandboxes:runner";
  pod_names = "sandbox-0" ∷ [];
  pod_uids = "pod-a" ∷ [];
}

abbrev server : String → ℕ → Result TokenReview
server token at = if_token (token == "token")
  where
    if_token : Bool → Result TokenReview
    if_token true = ok review
    if_token false = err not_found

abbrev runner : ReviewedIdentity
runner = record {
  namespace = "sandboxes";
  service_account = "runner";
  pod_name = "sandbox-0";
  pod_uid = "pod-a";
}

abbrev no_tokens : Tokens
no_tokens = record { values = []; reviews = 0; hits = 0 }

no_tokens-IsGenuine : IsGenuine "gateway" server 0 no_tokens
no_tokens-IsGenuine token c found = cc

review_token_backed_example :
    IsGenuine "gateway" server second
      (review_token "gateway" "token" second none (server "token" second) no_tokens).0
    × ((identity : ReviewedIdentity) (d : Decision)
        → (review_token "gateway" "token" second none (server "token" second) no_tokens).1
          ≡ ok (identity, d)
        → d.allow ≡ true
        → IsRecent "gateway" server second "token" identity (1 + second))
review_token_backed_example =
    review_token_backed "gateway" server "token" second none no_tokens 0 (omega arith)
      no_tokens-IsGenuine

review_token_first :
    (review_token "gateway" "token" second none (ok review) no_tokens).1
    ≡ ok (runner, record empty_decision { allow = true })
unfolding review_token review_cached finish_review remember read_review
review_token_first = refl

-- A language of one expression: "true" is true.
abbrev pub toy : Cel CelInput
toy = record {
  Ast = String;
  Program = String;
  compile = λ s. ok s;
  is_bool = λ s. true;
  program = λ s. ok s;
  eval = λ p seen. some (p == "true");
}

abbrev text_of : String → String
text_of key = "true"

program_for-IsFaithful_example :
    IsFaithful toy text_of (program_for toy "key" (text_of "key") []).0
    × ((program_for toy "key" (text_of "key") []).1 ≡ build_program toy (text_of "key"))
program_for-IsFaithful_example = program_for-IsFaithful toy text_of "key" [] (λ key p found. cc)

abbrev pub pod : Pod
pod = record {
  namespace = "sandboxes";
  name = "sandbox-0";
  uid = "pod-a";
  deleting = false;
  phase = "Running";
  annotations = [];
  owner_references = [];
  created_at = 0;
  service_account_name = "runner";
  automount = some false;
  runtime_class_name = some "kata-clh";
  volumes = [];
  containers = [];
  conditions = [];
  pod_ip = "10.0.0.7";
  pod_ips = "10.0.0.7" ∷ [];
}

abbrev pub account : ServiceAccount
account = record {
  namespace = "sandboxes";
  name = "runner";
  labels = (eligible_label, "true") ∷ [];
  automount = some false;
}

abbrev pub assigned : AssignmentObject
assigned = record {
  name = "assignment-a";
  uid = "uid-a";
  generation = 1;
  deleting = false;
  finalizers = [];
  annotations = [];
  labels = [];
  created_at = 0;
  template_ref = record { name = ""; uid = ""; spec_revision = "" };
  logical_tenant = "";
  bundle_name = "bundle-a";
  status = record {
    conditions =
        record {
          kind = "Ready";
          status = "True";
          reason = "";
          message = "";
          observed_generation = 1;
        }
        ∷ [];
    resolved =
        some (record { name = "bundle-a"; uid = "bundle-uid"; policy_revision = "sha256:0" });
    workload_ref = none;
    pod_ref = some (record {
      api_version = "v1";
      kind = "Pod";
      namespace = "sandboxes";
      name = "sandbox-0";
      uid = "pod-a";
    });
  };
}

abbrev bundle : BundleObject
bundle = record {
  name = "bundle-a";
  uid = "bundle-uid";
  deleting = false;
  finalizers = [];
  spec = record { governance = none; egress = some (("source-control", expression "true") ∷ []) };
}

abbrev pub revision : BundleSpec → Result String
revision spec = ok "sha256:0"

abbrev pub view : View
view = record {
  pods = pod ∷ [];
  service_accounts = account ∷ [];
  assignments = assigned ∷ [];
  bundles = bundle ∷ [];
  access_requests = λ uid. [];
}

abbrev pub at : Instants
at = record { fresh_at = unix_epoch + 2 * second; review_at = second; grant_at = second }

abbrev pub start : Checker String
start = record {
  programs = [];
  tokens = no_tokens;
  last_fresh = second;
  metrics = record {
    allows = 0;
    denies = 0;
    errors = 0;
    cel_errors = 0;
    freshness_denies = 0;
    grants_used = 0;
  };
}

abbrev pub input : CheckInput
input = record {
  backend = "source-control";
  identity_token = "token";
  method = "GET";
  host = "github.com";
  path = "/";
  headers = [];
  source_address = "10.0.0.7";
  derive_source_from_identity = false;
}

abbrev recorded : Option (Decision → Result (Unit {0}))
recorded = some (λ d. ok tt)

abbrev allowed : Outcome String
allowed =
    check sample toy revision "sandboxes" "gateway" recorded view at none (ok review) start input

allowed_true : allowed.1.allow ≡ true
unfolding check check_body after_review after_admit evaluate after_program after_eval finish_check
    review_token review_cached finish_review remember read_review admit admit_pod admit_source
    admit_account admit_assignment admit_bundle differs pods_with_uid assignments_of_pod
    service_accounts_of bundles_named source_matches_pod base_decision program_for build_program
allowed_true = refl

check_sound_example :
    IsJustified sample toy view revision "sandboxes" "gateway" at none
      (ok review)
      start
      input
      allowed.1
    × (audited recorded allowed.1 ≡ ok tt)
check_sound_example =
    check_sound sample toy revision "sandboxes" "gateway" recorded view at none (ok review) start
      input allowed_true
