-- ===== src/Examples/Targets.antt =====
-- Targets and access requests.
use opensandbox_aks_governan.Base.{false, ◌≡◌, refl, ok, is_ok, trim_space}
use opensandbox_aks_governan.Governance.Target.{
  Target, normalize_target, normalize_host, host_name, address_or_labels, strip_brackets, trim_dot,
  host_label, method_pattern, normalize_path, splits_host_port,
}
use opensandbox_aks_governan.Governance.Target.Canonical.{
  normalize_target_idempotent, normalize_target-coloned,
}
use opensandbox_aks_governan.Examples.Sample.{sample, sample_laws}

abbrev pub repository : Target
repository = record {
  backend = "source-control";
  method = "GET";
  host = "github.com";
  path = "/org/repo";
}

abbrev loopback : Target
loopback = record { backend = "source-control"; method = "GET"; host = "::1"; path = "/" }

repository_normal :
    normalize_target sample " source-control" "get" "github.com." "/org/repo" ≡ ok repository
unfolding normalize_target normalize_host host_name address_or_labels strip_brackets trim_dot
    host_label method_pattern normalize_path splits_host_port trim_space
repository_normal = refl

loopback_normal : normalize_target sample "source-control" "GET" "[::1]" "" ≡ ok loopback
unfolding normalize_target normalize_host host_name address_or_labels strip_brackets trim_dot
    host_label method_pattern normalize_path splits_host_port trim_space
loopback_normal = refl

normalize_target_idempotent_example :
    normalize_target sample "source-control" "GET" "github.com" "/org/repo" ≡ ok repository
normalize_target_idempotent_example =
    normalize_target_idempotent sample sample_laws " source-control" "get" "github.com." "/org/repo"
      repository repository_normal refl

normalize_target-coloned_example :
    is_ok (normalize_target sample "source-control" "GET" "::1" "/") ≡ false
normalize_target-coloned_example =
    normalize_target-coloned sample sample_laws "source-control" "GET" "[::1]" "" loopback
      loopback_normal refl
