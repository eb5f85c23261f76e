-- ===== src/Controller/Validate.antt =====
-- internal/assignment/controller/controller.go: the tests on Pods, service accounts, owners and
-- bundles.
use opensandbox_aks_governan.Base.{
  ℤ, pos, lt_int, le_int, String, Bool, true, false, not, ◌&&◌, ◌||◌, Option, none, some, List, [],
  ◌∷◌, any, if◌then◌else◌, ◌==◌, string_eq, is_empty, message, Result, ok, err, require, ◌>>◌,
  wrap_error,
}
use opensandbox_aks_governan.Cluster.{
  Pod, ServiceAccount, OwnerReference, Volume, VolumeMount, Container, TokenProjection, BundleSpec,
  AllowField, absent, ill_typed, expression, lookup_text, unset_or_true, condition_true,
  eligible_label, assignment_uid_annotation, open_sandbox_uid_annotation,
}
use opensandbox_aks_governan.Controller.Objects.{
  Library, Mode, projected_sidecar, external_mediator,
}

abbrev pub identity_audience : String
identity_audience = "aks-sandbox-capability-gateway"

abbrev pub identity_volume : String
identity_volume = "assignment-identity"

abbrev pub identity_container : String
identity_container = "egress"

abbrev pub identity_mount_path : String
identity_mount_path = "/var/run/aks-sandbox-identity"

-- A field of another type than text does not convert; the typed bundle has the empty text where the
-- field is absent.
abbrev pub backend_policy : Library → AllowField → Result (Unit {0})
backend_policy l absent = err (message "allow expression is missing")
backend_policy l ill_typed = err (message "allow expression is missing")
backend_policy l (expression text) =
    if is_empty text
    then err (message "allow expression is missing")
    else wrap_error "allow expression" (l.allow_valid text)

-- The first complaint in the order of the entries, which Go leaves open.
unfoldable pub backend_policies : Library → List (String × AllowField) → Result (Unit {0})
backend_policies l [] = ok tt
backend_policies l ((backend, field) ∷ rest) =
    wrap_error backend (backend_policy l field) >> backend_policies l rest

abbrev pub validate_bundle_policy : Library → BundleSpec → Result (Unit {0})
validate_bundle_policy l spec = elim spec.egress [
  | none ↦ ok tt
  | some table ↦ backend_policies l table
]

abbrev pub is_set : Option Bool → Bool
is_set none = false
is_set (some b) = b

-- `ownedBy` and `ownedByPool`: a controlling owner of a kind with a UID.
unfoldable pub owned_by : String → String → List OwnerReference → Bool
owned_by kind uid = any (λ r. is_set r.controller && r.kind == kind && r.uid == uid)

unfoldable pub assignment_uid : List (String × String) → String
assignment_uid annotations =
    let value = lookup_text open_sandbox_uid_annotation annotations in
    if is_empty value then lookup_text assignment_uid_annotation annotations else value

abbrev pub runtime_class_name : Pod → String
runtime_class_name p = elim p.runtime_class_name [ none ↦ "" | some name ↦ name ]

unfoldable pub validate_service_account_reference : Pod → Result (Unit {0})
validate_service_account_reference p =
    require (not (is_empty p.service_account_name)) "bound Pod does not declare a ServiceAccount"

unfoldable pub validate_eligible_service_account : ServiceAccount → Result (Unit {0})
validate_eligible_service_account a = do
  require (lookup_text eligible_label a.labels == "true") "ServiceAccount is not platform-eligible"
  require (not (unset_or_true a.automount)) "ServiceAccount must disable token automount"

unfoldable pub validate_isolation : Pod → Result (Unit {0})
validate_isolation p =
    require (not (unset_or_true p.automount)) "automountServiceAccountToken must be false"

-- A projected token for the gateway, for ten minutes at most.
abbrev pub short_lived : Option ℤ → Bool
short_lived none = false
short_lived (some seconds) = lt_int (pos 0) seconds && le_int seconds (pos 600)

abbrev pub gateway_token : Option TokenProjection → Bool
gateway_token none = false
gateway_token (some t) =
    t.path == "token" && t.audience == identity_audience && short_lived t.expiration_seconds

abbrev pub projects_identity : Volume → Bool
projects_identity v =
    v.name == identity_volume
    && elim v.projected [ none ↦ false | some sources ↦ any gateway_token sources ]

-- A mount of the identity volume anywhere but read-only at its place in the egress container.
abbrev pub bad_mount : Container → VolumeMount → Bool
bad_mount c m =
    m.name == identity_volume
    && (not (c.name == identity_container)
        || not m.read_only
        || not (m.mount_path == identity_mount_path)
        || not (is_empty m.sub_path)
        || not (is_empty m.sub_path_expr))

abbrev pub badly_mounted : List Container → Bool
badly_mounted = any (λ c. any (bad_mount c) c.volume_mounts)

abbrev pub mounted : List Container → Bool
mounted = any (λ c. any (λ m. m.name == identity_volume) c.volume_mounts)

-- `validateIdentity`.
unfoldable pub validate_sidecar_identity : Pod → Result (Unit {0})
validate_sidecar_identity p = do
  validate_isolation p
  require (any projects_identity p.volumes) "required Pod-bound identity projection is missing"
  require (not (badly_mounted p.containers)) "identity volume has an invalid mount in a container"
  require (mounted p.containers) "identity volume is not mounted by egress"

abbrev pub is_token : Option TokenProjection → Bool
is_token none = false
is_token (some _) = true

abbrev pub projects_token : Volume → Bool
projects_token v = elim v.projected [ none ↦ false | some sources ↦ any is_token sources ]

unfoldable pub validate_external_mediator_identity : Pod → Result (Unit {0})
validate_external_mediator_identity p =
    require (not (any projects_token p.volumes))
      "external mediator mode forbids projected service account tokens"

abbrev pub validate_mode : Mode → Pod → Result (Unit {0})
validate_mode projected_sidecar p = validate_sidecar_identity p
validate_mode external_mediator p = validate_external_mediator_identity p

abbrev pub pod_ready : Pod → Bool
pod_ready p = condition_true "Ready" p.conditions
