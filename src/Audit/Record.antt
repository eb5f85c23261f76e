-- ===== src/Audit/Record.antt =====
-- internal/assignment/authz/audit.go: `Record` and `Shutdown`. The answer to the create call of an
-- event, which includes its conversion to an unstructured object, is an argument.
pub mod Laws
use opensandbox_aks_governan.Base.{
  ℕ, count64, String, Bool, true, false, ◌||◌, List, [], ◌∷◌, if◌then◌else◌, is_empty, Error,
  message, Result, ok, err,
}
use opensandbox_aks_governan.Api.{AssignmentReference}
use opensandbox_aks_governan.Authz.Decision.{Decision}
use opensandbox_aks_governan.Audit.Values.{sanitize_decision}

pub record AuditSink : Type 0 where
  pub enqueued : ℕ
  pub written : ℕ
  pub dropped : ℕ
  pub errors : ℕ
  pub accepting : Bool

-- `SandboxEgressEventSpec`.
pub record EgressEvent : Type 0 where
  pub timestamp : ℕ
  pub assignment_ref : AssignmentReference
  pub sandbox_id : String
  pub pod_uid : String
  pub capability_bundle_name : String
  pub capability_bundle_revision : String
  pub logical_tenant : String
  pub team : String
  pub permission_level : String
  pub boundary_display_name : String
  pub backend : String
  pub method : String
  pub host : String
  pub path : String
  pub allowed : Bool
  pub reason : String
  pub decision_source : String
  pub access_request_name : String

unfoldable pub incomplete : Decision → Bool
incomplete d =
    is_empty d.assignment_name
    || is_empty d.assignment_uid
    || is_empty d.pod_uid
    || is_empty d.capability_bundle_name
    || is_empty d.capability_bundle_revision
    || is_empty d.backend
    || is_empty d.method
    || is_empty d.host
    || is_empty d.path
    || is_empty d.reason
    || is_empty d.source

-- `egressEventForDecision`.
abbrev pub event_of : ℕ → Decision → EgressEvent
event_of now d = record {
  timestamp = now;
  assignment_ref = record { name = d.assignment_name; uid = d.assignment_uid };
  sandbox_id = d.sandbox_id;
  pod_uid = d.pod_uid;
  capability_bundle_name = d.capability_bundle_name;
  capability_bundle_revision = d.capability_bundle_revision;
  logical_tenant = d.logical_tenant;
  team = d.team;
  permission_level = d.permission_level;
  boundary_display_name = d.boundary_display_name;
  backend = d.backend;
  method = d.method;
  host = d.host;
  path = d.path;
  allowed = d.allow;
  reason = d.reason;
  decision_source = d.source;
  access_request_name = d.access_request_name;
}

-- The new sink, the events that were sent, and the result.
pub record Recorded : Type 0 where
  pub sink : AuditSink
  pub sent : List EgressEvent
  pub result : Result (Unit {0})

abbrev pub after_write : AuditSink → EgressEvent → Result (Unit {0}) → Recorded
after_write s event (ok _) = record {
  sink = record s { written = count64 s.written };
  sent = event ∷ [];
  result = ok tt;
}
after_write s event (err e) = record {
  sink = record s { errors = count64 s.errors };
  sent = event ∷ [];
  result = err e;
}

abbrev pub write_event : (EgressEvent → Result (Unit {0})) → ℕ → AuditSink → Decision → Recorded
write_event create now s d =
    let enqueued = record s { enqueued = count64 s.enqueued } in
    after_write enqueued (event_of now d) (create (event_of now d))

abbrev pub record_sanitized :
    (EgressEvent → Result (Unit {0})) → ℕ → AuditSink → Decision → Recorded
record_sanitized create now s d =
    let sent = write_event create now s d in
    if incomplete d
    then record {
      sink = record s { errors = count64 s.errors; dropped = count64 s.dropped };
      sent = [];
      result = err (message "authorization audit record is incomplete");
    }
    else if s.accepting
    then sent
    else record {
      sink = record s { dropped = count64 s.dropped };
      sent = [];
      result = err (message "authorization audit sink is shutting down");
    }

unfoldable pub record_decision :
    (EgressEvent → Result (Unit {0})) → ℕ → AuditSink → Decision → Recorded
record_decision create now s d = record_sanitized create now s (sanitize_decision d)

abbrev pub shutdown : AuditSink → AuditSink
shutdown s = record s { accepting = false }
