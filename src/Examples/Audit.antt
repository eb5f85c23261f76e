-- ===== src/Examples/Audit.antt =====
-- A decision that is written to the audit log, and a cleanup.
use opensandbox_aks_governan.Base.{
  ℕ, String, true, false, none, some, List, [], ◌∷◌, ◌≡◌, refl, arith, trim_space, is_control,
  Result, ok, err, not_found,
}
use opensandbox_aks_governan.Authz.Decision.{Decision}
use opensandbox_aks_governan.Authz.Admit.{
  admit, admit_pod, admit_source, admit_account, admit_assignment, admit_bundle, differs,
  pods_with_uid, assignments_of_pod, service_accounts_of, bundles_named, source_matches_pod,
  base_decision,
}
use opensandbox_aks_governan.Authz.Tokens.{
  review_token, review_cached, finish_review, remember, read_review,
}
use opensandbox_aks_governan.Authz.Programs.{build_program, program_for}
use opensandbox_aks_governan.Authz.Check.{
  check, check_body, after_review, after_admit, evaluate, after_program, after_eval, finish_check,
}
use opensandbox_aks_governan.Audit.Values.{sanitize_audit_value, sanitize_decision}
use opensandbox_aks_governan.Audit.Record.{AuditSink, EgressEvent, incomplete, record_decision}
use opensandbox_aks_governan.Audit.Record.Laws.{IsWritten, IsCounted, check-IsWritten}
use opensandbox_aks_governan.Api.{SandboxAccessRequest}
use opensandbox_aks_governan.Authz.Grants.{valid_approval}
use opensandbox_aks_governan.Audit.Cleanup.{
  StoredEvent, is_old, is_expired, cleanup_events, expire_access_requests,
}
use opensandbox_aks_governan.Audit.Cleanup.Laws.{
  IsOver, OverNames, expire_access_requests-valid_approval,
}
use opensandbox_aks_governan.Examples.Requests.{approved}
use opensandbox_aks_governan.Examples.Sample.{sample}
use opensandbox_aks_governan.Examples.Authorization.{toy, revision, view, at, review, start, input}

abbrev sink : AuditSink
sink = record { enqueued = 3; written = 2; dropped = 1; errors = 2; accepting = true }

abbrev stored : EgressEvent → Result (Unit {0})
stored event = ok tt

abbrev allowed : Decision
allowed =
    (check sample toy revision "sandboxes" "gateway"
      (some (λ d. (record_decision stored 7 sink d).result)) view at none (ok review) start input).1

allowed_run : allowed.allow ≡ true
unfolding check check_body after_review after_admit evaluate after_program after_eval finish_check
    review_token review_cached finish_review remember read_review admit admit_pod admit_source
    admit_account admit_assignment admit_bundle differs pods_with_uid assignments_of_pod
    service_accounts_of bundles_named source_matches_pod base_decision program_for build_program
    record_decision sanitize_decision sanitize_audit_value incomplete trim_space is_control
allowed_run = refl

check-IsWritten_example : (w : IsWritten stored 7 sink allowed) × (w.event.allowed ≡ true)
unfolding check check_body after_review after_admit evaluate after_program after_eval finish_check
    review_token review_cached finish_review remember read_review admit admit_pod admit_source
    admit_account admit_assignment admit_bundle differs pods_with_uid assignments_of_pod
    service_accounts_of bundles_named source_matches_pod base_decision program_for build_program
    record_decision sanitize_decision sanitize_audit_value incomplete trim_space is_control
check-IsWritten_example =
    check-IsWritten sample toy revision "sandboxes" "gateway" stored 7 sink view at none (ok review)
      start input allowed_run refl

counted : IsCounted sink 4
counted = record {
  started = omega arith;
  finished = omega arith;
  few = omega arith;
  errors_few = omega arith;
  written_few = omega arith;
}

-- A text that is cut behind a blank keeps the blank, which a second run removes.
cut_behind_blank : sanitize_audit_value "a b" 2 ≡ "a "
unfolding sanitize_audit_value trim_space is_control
cut_behind_blank = refl

abbrev tries : String → Result (Unit {0})
tries name = err not_found

abbrev late : ℕ
late = 1000000000000000000000

expire_access_requests-valid_approval_example :
    OverNames late tries (approved ∷ []) (expire_access_requests late tries (approved ∷ [])).calls
    × ((r : SandboxAccessRequest) → IsOver late tries r → valid_approval sample r late ≡ false)
unfolding expire_access_requests is_expired
expire_access_requests-valid_approval_example =
    expire_access_requests-valid_approval late tries sample (approved ∷ []) refl

-- One event past its retention, one not.
abbrev events : List StoredEvent
events =
    record { name = "old"; timestamp = some 5; created_at = 5 }
    ∷ record { name = "new"; timestamp = none; created_at = 95 }
    ∷ []

cleaned : (cleanup_events 100 tries 10 events).calls ≡ "old" ∷ []
unfolding cleanup_events is_old
cleaned = refl
