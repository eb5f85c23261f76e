-- ===== src/Examples/Server.antt =====
-- A request of Envoy to the authorization server.
use opensandbox_aks_governan.Base.{
  String, Bool, true, Option, none, some, [], ◌∷◌, ◌≡◌, refl, ◌==◌, string_eq, trim_space, Error,
}
use opensandbox_aks_governan.Authz.Decision.{CheckInput, Decision, empty_decision}
use opensandbox_aks_governan.Authz.Server.{
  Attributes, allowed_response, copy_headers, normalize, server_check,
}
use opensandbox_aks_governan.Authz.Server.Laws.{IsNormal, server_check-IsNormal}
use opensandbox_aks_governan.Governance.Target.{
  normalize_target, normalize_host, normalize_path, host_name, strip_brackets, trim_dot,
  address_or_labels, host_label, method_pattern, splits_host_port,
}
use opensandbox_aks_governan.Examples.Sample.{sample}

abbrev same : String → String → Bool
same a b = a == b

abbrev request : Attributes
request = record {
  context_extensions = ("backend", "source-control") ∷ [];
  http = some (record {
    method = "GET";
    host = "github.com";
    path = "/";
    headers =
        (":method", "GET") ∷ ("accept", "text/plain") ∷ ("x-aks-sandbox-identity", "token") ∷ [];
  });
  source_address = "10.0.0.7";
}

abbrev agrees : CheckInput → Decision × Option Error
agrees input = (record empty_decision { allow = true }, none)

passes : server_check sample same agrees (some request) ≡ allowed_response
unfolding server_check normalize copy_headers normalize_target normalize_host normalize_path
    host_name strip_brackets trim_dot address_or_labels host_label method_pattern trim_space
    splits_host_port
passes = refl

server_check-IsNormal_example :
    (input : CheckInput) × IsNormal sample same (some request) input
    × ((agrees input).0.allow ≡ true)
    × ((agrees input).1 ≡ none)
server_check-IsNormal_example = server_check-IsNormal sample same agrees (some request) passes
