-- ===== src/Audit/Values.antt =====
-- internal/assignment/authz/audit.go: `sanitizeAuditValue` and `sanitizeDecision`.
pub mod Laws
use Prim.Native.String.{[], ◌∷◌}
use opensandbox_aks_governan.Base.{
  ℕ, zero, suc, code, String, Bool, if◌then◌else◌, not, is_control, trim_space,
}
use opensandbox_aks_governan.Authz.Decision.{Decision}

-- The characters that pass a test, the first characters, and how many there are.
abbrev pub keep_chars : (ℕ → Bool) → String → String
keep_chars p [] = []
keep_chars p (c ∷ s) = let rest = keep_chars p s in if p (code c) then c ∷ rest else rest

abbrev pub take_chars : ℕ → String → String
take_chars zero s = []
take_chars (suc n) [] = []
take_chars (suc n) (c ∷ s) = c ∷ take_chars n s

abbrev pub count_chars : String → ℕ
count_chars [] = 0
count_chars (_ ∷ s) = suc (count_chars s)

-- A text is cut only if it is too long, which gives the same as to cut it always.
unfoldable pub sanitize_audit_value : String → ℕ → String
sanitize_audit_value value maximum =
    take_chars maximum (trim_space (keep_chars (λ c. not (is_control c)) value))

unfoldable pub sanitize_decision : Decision → Decision
sanitize_decision d = record d {
  assignment_name = sanitize_audit_value d.assignment_name 253;
  assignment_uid = sanitize_audit_value d.assignment_uid 128;
  sandbox_id = sanitize_audit_value d.sandbox_id 253;
  pod_uid = sanitize_audit_value d.pod_uid 128;
  capability_bundle_name = sanitize_audit_value d.capability_bundle_name 253;
  capability_bundle_revision = sanitize_audit_value d.capability_bundle_revision 128;
  logical_tenant = sanitize_audit_value d.logical_tenant 128;
  team = sanitize_audit_value d.team 128;
  permission_level = sanitize_audit_value d.permission_level 64;
  boundary_display_name = sanitize_audit_value d.boundary_display_name 128;
  backend = sanitize_audit_value d.backend 63;
  method = sanitize_audit_value d.method 32;
  host = sanitize_audit_value d.host 253;
  path = sanitize_audit_value d.path 2048;
  reason = sanitize_audit_value d.reason 512;
  access_request_name = sanitize_audit_value d.access_request_name 253;
}
