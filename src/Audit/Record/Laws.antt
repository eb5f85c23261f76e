-- ===== src/Audit/Record/Laws.antt =====
-- What the audit log holds when a decision was recorded, and its counters.
use opensandbox_aks_governan.Base.{
  ℕ, count64, ◌+◌, ◌≤◌, ◌<◌, ◌^◌, String, Bool, true, false, [], ◌∷◌, ◌≡◌, refl, ◌∙◌, arith,
  if◌then◌else◌, is_empty, Option, some, Result, ok, err,
}
use opensandbox_aks_governan.Externals.{Externals}
use opensandbox_aks_governan.Cluster.{BundleSpec}
use opensandbox_aks_governan.Authz.Decision.{CheckInput, Decision}
use opensandbox_aks_governan.Authz.Tokens.{TokenReview}
use opensandbox_aks_governan.Authz.Programs.{Cel}
use opensandbox_aks_governan.Authz.Admit.{View}
use opensandbox_aks_governan.Authz.Check.{CelInput, Checker, Instants, check}
use opensandbox_aks_governan.Authz.Check.Laws.{check_sound}
use opensandbox_aks_governan.Audit.Values.{sanitize_decision}
use opensandbox_aks_governan.Audit.Record.{
  AuditSink, EgressEvent, incomplete, event_of, Recorded, after_write, record_decision,
}

-- An event that says of a request what a decision does: whose it was, for which target, under which
-- policy, and how and why it was decided.
pub record IsAccount (event : EgressEvent) (d : Decision) : Type 0 where
  pub allowed : event.allowed ≡ d.allow
  pub reason : event.reason ≡ d.reason
  pub source : event.decision_source ≡ d.source
  pub request : event.access_request_name ≡ d.access_request_name
  pub assignment_name : event.assignment_ref.name ≡ d.assignment_name
  pub assignment_uid : event.assignment_ref.uid ≡ d.assignment_uid
  pub sandbox : event.sandbox_id ≡ d.sandbox_id
  pub pod : event.pod_uid ≡ d.pod_uid
  pub bundle : event.capability_bundle_name ≡ d.capability_bundle_name
  pub revision : event.capability_bundle_revision ≡ d.capability_bundle_revision
  pub tenant : event.logical_tenant ≡ d.logical_tenant
  pub team : event.team ≡ d.team
  pub level : event.permission_level ≡ d.permission_level
  pub boundary : event.boundary_display_name ≡ d.boundary_display_name
  pub backend : event.backend ≡ d.backend
  pub method : event.method ≡ d.method
  pub host : event.host ≡ d.host
  pub path : event.path ≡ d.path

-- One event was sent and stored, at this time, that is an account of the decision as it is sanitized,
-- and leaves out no field that the log needs.
pub record IsWritten (create : EgressEvent → Result (Unit {0})) (now : ℕ) (s : AuditSink)
    (d : Decision) : Type 0 where
  pub event : EgressEvent
  pub sent : (record_decision create now s d).sent ≡ event ∷ []
  pub stored : create event ≡ ok tt
  pub timed : event.timestamp ≡ now
  pub account : IsAccount event (sanitize_decision d)
  pub accepted : s.accepting ≡ true
  pub full : incomplete (sanitize_decision d) ≡ false
  pub whose : is_empty event.assignment_ref.uid ≡ false
  pub which_pod : is_empty event.pod_uid ≡ false
  pub decided_by : is_empty event.decision_source ≡ false
  pub explained : is_empty event.reason ≡ false

event_of-IsAccount : (now : ℕ) (d : Decision) → IsAccount (event_of now d) d
event_of-IsAccount now d = record {
  allowed = refl;
  reason = refl;
  source = refl;
  request = refl;
  assignment_name = refl;
  assignment_uid = refl;
  sandbox = refl;
  pod = refl;
  bundle = refl;
  revision = refl;
  tenant = refl;
  team = refl;
  level = refl;
  boundary = refl;
  backend = refl;
  method = refl;
  host = refl;
  path = refl;
}

-- What a complete decision has.
complete-fields :
    (d : Decision)
    → incomplete d ≡ false
    → (is_empty d.assignment_uid ≡ false)
      × (is_empty d.pod_uid ≡ false)
      × (is_empty d.source ≡ false)
      × (is_empty d.reason ≡ false)
unfolding incomplete
complete-fields d h = (ground (arith), ground (arith), ground (arith), ground (arith))

module _ (create : EgressEvent → Result (Unit {0})) (now : ℕ) (s : AuditSink) (d : Decision) where
  record_decision-IsWritten :
      (record_decision create now s d).result ≡ ok tt → IsWritten create now s d
  unfolding record_decision
  record_decision-IsWritten h = from (create (event_of now (sanitize_decision d))) refl
    where
      from :
          (answer : Result (Unit {0}))
          → create (event_of now (sanitize_decision d)) ≡ answer
          → IsWritten create now s d
      from (ok tt) stored =
          let (whose, which_pod, decided_by, explained) =
            complete-fields (sanitize_decision d) (ground (arith)) in
          record {
            event = event_of now (sanitize_decision d);
            sent = ground (arith);
            stored = stored;
            timed = refl;
            account = event_of-IsAccount now (sanitize_decision d);
            accepted = ground (arith);
            full = ground (arith);
            whose = whose;
            which_pod = which_pod;
            decided_by = decided_by;
            explained = explained;
          }
      from (err e) stored = absurd (ground (arith))

-- How the counters stand to each other after `n` records, while none of them has wrapped.
pub record IsCounted (s : AuditSink) (n : ℕ) : Type 0 where
  pub started : s.enqueued ≤ s.written + s.errors
  pub finished : s.written + s.errors ≤ s.enqueued + s.dropped
  pub few : s.enqueued + s.dropped ≤ n
  pub errors_few : s.errors ≤ n
  pub written_few : s.written ≤ n

count64-small : (n : ℕ) → n + 1 < 2 ^ 64 → count64 n ≡ n + 1
count64-small n h = omega (arith)

on_branches {ℓ κ} :
    {A : Type ℓ} (P : A → Type κ) (first second : Bool) (a b c : A)
    → P a
    → P b
    → P c
    → P (if first then a else (if second then b else c))
on_branches P true second a b c p q r = p
on_branches P false true a b c p q r = q
on_branches P false false a b c p q r = r

module _ (s : AuditSink) (n : ℕ) (small : n + 1 < 2 ^ 64) (counted : IsCounted s n) where
  -- The counters of a record that ends in a write, in a failed write, before it, or in a shutdown.
  written-IsCounted :
      IsCounted (record s { enqueued = count64 s.enqueued; written = count64 s.written }) (n + 1)
  written-IsCounted = record {
    started = omega (arith, counted.started, counted.few, counted.written_few);
    finished = omega (arith, counted.finished, counted.few, counted.written_few);
    few = omega (arith, counted.few);
    errors_few = omega (arith, counted.errors_few);
    written_few = omega (arith, counted.written_few);
  }

  failed-IsCounted :
      IsCounted (record s { enqueued = count64 s.enqueued; errors = count64 s.errors }) (n + 1)
  failed-IsCounted = record {
    started = omega (arith, counted.started, counted.few, counted.errors_few);
    finished = omega (arith, counted.finished, counted.few, counted.errors_few);
    few = omega (arith, counted.few);
    errors_few = omega (arith, counted.errors_few);
    written_few = omega (arith, counted.written_few);
  }

  refused-IsCounted :
      IsCounted (record s { errors = count64 s.errors; dropped = count64 s.dropped }) (n + 1)
  refused-IsCounted = record {
    started = omega (arith, counted.started, counted.few, counted.errors_few);
    finished = omega (arith, counted.finished, counted.few, counted.errors_few);
    few = omega (arith, counted.few);
    errors_few = omega (arith, counted.errors_few);
    written_few = omega (arith, counted.written_few);
  }

  dropped-IsCounted : IsCounted (record s { dropped = count64 s.dropped }) (n + 1)
  dropped-IsCounted = record {
    started = omega (arith, counted.started);
    finished = omega (arith, counted.finished, counted.few);
    few = omega (arith, counted.few);
    errors_few = omega (arith, counted.errors_few);
    written_few = omega (arith, counted.written_few);
  }

  after_write-IsCounted :
      (event : EgressEvent) (answer : Result (Unit {0}))
      → IsCounted
          (after_write (record s { enqueued = count64 s.enqueued }) event answer).sink
          (n + 1)
  after_write-IsCounted event (ok tt) = written-IsCounted
  after_write-IsCounted event (err e) = failed-IsCounted

  -- Every record, whether it is written, refused or fails, keeps the counters together: each decision
  -- that was taken on is counted as written or as an error, and each decision that is counted so was
  -- taken on or dropped, for fewer than 2 ^ 64 records.
  pub record_decision-IsCounted :
      (create : EgressEvent → Result (Unit {0})) (now : ℕ) (d : Decision)
      → IsCounted (record_decision create now s d).sink (n + 1)
  unfolding record_decision
  record_decision-IsCounted create now d =
      on_branches {A = Recorded} (λ r. IsCounted r.sink (n + 1)) (incomplete (sanitize_decision d))
        s.accepting _ _ _ refused-IsCounted
        (after_write-IsCounted (event_of now (sanitize_decision d))
          (create (event_of now (sanitize_decision d))))
        dropped-IsCounted

-- Of a request that the checker allows for an assignment with a UID, with the audit log behind it,
-- one event has been stored before the answer is given, which says that it was allowed, and gives the
-- decision's assignment, Pod, policy, target and reason as they are sanitized.
pub check-IsWritten :
    (x : Externals) (cel : Cel CelInput) (policy_revision : BundleSpec → Result String)
    (workload_namespace audience : String) (create : EgressEvent → Result (Unit {0})) (now : ℕ)
    (sink : AuditSink) (view : View) (at : Instants) (expiry : Option ℕ)
    (review : Result TokenReview) (s : Checker cel.Program) (input : CheckInput)
    → let d =
        (check x cel policy_revision workload_namespace audience
          (some (λ d. (record_decision create now sink d).result))
          view
          at
          expiry
          review
          s
          input).1 in
      d.allow ≡ true
      → is_empty d.assignment_uid ≡ false
      → (w : IsWritten create now sink d) × (w.event.allowed ≡ true)
unfolding sanitize_decision
check-IsWritten x cel policy_revision workload_namespace audience create now sink view at expiry
      review s input allowed named =
    let d =
      (check x cel policy_revision workload_namespace audience
        (some (λ d. (record_decision create now sink d).result)) view at expiry review s input).1 in
    let (justified, recorded) =
      check_sound x cel policy_revision workload_namespace audience
        (some (λ d. (record_decision create now sink d).result)) view at expiry review s input
        allowed in
    let written = record_decision-IsWritten create now sink d (rw named at recorded) in
    (written, written.account.allowed ∙ allowed)
