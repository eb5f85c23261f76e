-- ===== src/Dashboard/Requests/Grants.antt =====
-- An approval of cmd/aks-sandbox-dashboard/governance.go as the authorization checker of
-- internal/assignment/authz/checker.go finds it. What a stored time keeps is a parameter.
use Prim.Native.String.{[], ◌∷◌, len}
use opensandbox_aks_governan.Base.{
  ℕ, ◌+◌, ◌*◌, ◌≤◌, ◌<◌, ℤ, pos, negsuc, lt_int, times64, String, true, false, Option, none, some,
  ◌≡◌, refl, sym, ap, subst, ◌∙◌, arith, is_empty, trim_space, leb,
}
use opensandbox_aks_governan.Api.{
  second, SandboxAccessRequestSpec, SandboxAccessRequestStatus, SandboxAccessRequest,
}
use opensandbox_aks_governan.Externals.{Externals}
use opensandbox_aks_governan.Governance.Request.Laws.{
  FitsInt32, IsAllowedDuration, validate_access_request_spec_iff,
}
use opensandbox_aks_governan.Authz.Decision.{Decision}
use opensandbox_aks_governan.Authz.Grants.{matched, timely, valid_approval, judge_request}
use opensandbox_aks_governan.Authz.Grants.Laws.{judge_request_complete}
use opensandbox_aks_governan.Dashboard.Handled.{passed}
use opensandbox_aks_governan.Dashboard.Principals.{AuthenticatedIdentity}
use opensandbox_aks_governan.Dashboard.Forms.{Mutation, form_value}
use opensandbox_aks_governan.Dashboard.Requests.{Site, Reads, reason_allowed}
use opensandbox_aks_governan.Dashboard.Requests.Decisions.{approval}
use opensandbox_aks_governan.Dashboard.Requests.Approvals.{IsApproved, approval-IsApproved}

-- A stored time is cut off to whole seconds.
pub record StoresTimes (stored : ℕ → ℕ) : Type 0 where
  pub earlier : (t : ℕ) → stored t ≤ t
  pub monotone : (s t : ℕ) → s ≤ t → stored s ≤ stored t
  pub whole : (t n : ℕ) → stored (t + n * second) ≡ stored t + n * second

abbrev pub stored_time : (ℕ → ℕ) → Option ℕ → Option ℕ
stored_time stored none = none
stored_time stored (some t) = some (stored t)

-- The request that is read back after its status was updated.
abbrev pub stored_request :
    (ℕ → ℕ) → SandboxAccessRequest → SandboxAccessRequestStatus → SandboxAccessRequest
stored_request stored request status = record request {
  status = record status {
    approved_at = stored_time stored status.approved_at;
    expires_at = stored_time stored status.expires_at;
  };
}

-- A decision on the assignment, the Pod, the policy revision and the exact target of a request.
pub record IsAbout (d : Decision) (spec : SandboxAccessRequestSpec) : Type 0 where
  pub assignment_uid : spec.assignment_ref.uid ≡ d.assignment_uid
  pub assignment_name : spec.assignment_ref.name ≡ d.assignment_name
  pub pod : spec.pod_uid ≡ d.pod_uid
  pub revision : spec.base_policy_revision ≡ d.capability_bundle_revision
  pub backend : spec.backend ≡ d.backend
  pub method : spec.method ≡ d.method
  pub host : spec.host ≡ d.host
  pub path : spec.path ≡ d.path

nonempty_of_len : (s : String) → leb 3 (len s) ≡ true → is_empty s ≡ false
nonempty_of_len [] h = cc
nonempty_of_len (c ∷ s) h = refl

same_end : {s t : ℕ} → some s ≡ some t → s ≡ t
same_end h = cc

reason_allowed-nonempty :
    (reason : String) → reason_allowed reason ≡ true → is_empty (trim_space reason) ≡ false
reason_allowed-nonempty reason h = nonempty_of_len (trim_space reason) (ground (arith))

-- A whole number of seconds that is at least a duration.
at_least-seconds :
    (n d : ℕ) → n ≤ 28800 → lt_int (times64 (pos n) second) (pos d) ≡ false → d ≤ n * second
unfolding times64
at_least-seconds n d small h = ground (arith)

seconds-timely :
    (n now from until : ℕ)
    → n ≤ 28800
    → from ≤ now
    → now < until
    → until ≤ from + n * second
    → timely (pos n) now (some from) (some until) ≡ true
unfolding times64
seconds-timely n now from until small begun open_yet bounded = ground (arith)

approved-timely :
    (stored : ℕ → ℕ)
    → StoresTimes stored
    → (requested : ℤ) (d now t : ℕ) → IsAllowedDuration requested
    → lt_int (times64 requested second) (pos d) ≡ false
    → now ≤ t
    → t < stored (now + d)
    → timely requested t (some (stored now)) (some (stored (now + d))) ≡ true
approved-timely stored laws (negsuc n) d now t allowed h begun before = absurd allowed
approved-timely stored laws (pos n) d now t allowed h begun before =
    let bound = at_least-seconds n d allowed.1 h in
    let kept = laws.monotone (now + d) (now + n * second) (ground (arith)) in
    seconds-timely n t (stored now) (stored (now + d)) allowed.1 (ground (arith, laws.earlier now))
      before (ground (arith, laws.whole now n))

module _ (x : Externals) (site : Site) (r : Reads) (stored : ℕ → ℕ)
    (laws : StoresTimes stored) where
  IsApproved-valid_approval :
      (who : Option AuthenticatedIdentity) (m : Mutation) (name : String)
      (request : SandboxAccessRequest) (status : SandboxAccessRequestStatus)
      (a : IsApproved x site r who m name request status) (t : ℕ)
      → FitsInt32 request.spec.requested_duration_seconds
      → r.now ≤ t
      → t < stored (r.now + a.duration)
      → valid_approval x (stored_request stored request status) t ≡ true
  unfolding valid_approval
  IsApproved-valid_approval who m name request status a t fits begun before =
      let valid = (validate_access_request_spec_iff x request.spec fits).0 a.approvable.valid in
      let times =
        approved-timely stored laws request.spec.requested_duration_seconds a.duration r.now t
          valid.duration a.approvable.as_requested begun before in
      let reasoned =
        reason_allowed-nonempty (form_value "decisionReason" a.form) a.decidable.reasoned in
      rw (a.sent, a.approver_valid, reasoned, times)

  -- Where a store cuts times off to whole seconds, an approved request that is read back grants what
  -- it asks for from the approval until its stored end: the
  -- authorization checker takes it for a match for every decision on its assignment, Pod, policy
  -- revision and target, if it is not being deleted and its duration fits an int32.
  pub approval-judge_request :
      (who : Option AuthenticatedIdentity) (m : Mutation) (name : String)
      (request : SandboxAccessRequest) (status : SandboxAccessRequestStatus)
      → approval x site r who m name ≡ passed (request, status)
      → FitsInt32 request.spec.requested_duration_seconds
      → request.deleting ≡ false
      → (d : Decision) → IsAbout d request.spec
      → (until : ℕ) → status.expires_at ≡ some until
      → (t : ℕ) → r.now ≤ t
      → t < stored until
      → judge_request x d t (stored_request stored request status) ≡ matched request.name
  approval-judge_request who m name request status h fits live d about until ends t begun before =
      let a = approval-IsApproved x site r who m name (request, status) h in
      let same : until ≡ r.now + a.duration = same_end (sym ends ∙ ap (λ s. s.expires_at) a.sent) in
      judge_request_complete x d t (stored_request stored request status) (record {
        live = live;
        approved = ap (λ s. s.state) a.sent;
        assignment_uid = about.assignment_uid;
        assignment_name = about.assignment_name;
        pod = about.pod;
        revision = about.revision;
        valid = rw (a.approvable.valid);
        backend = about.backend;
        method = about.method;
        host = about.host;
        path = about.path;
        approval =
            IsApproved-valid_approval who m name request status a t fits begun
              (subst (λ u. t < stored u) same before);
      })
