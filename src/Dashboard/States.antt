-- ===== src/Dashboard/States.antt =====
-- The states of an access request, over cmd/aks-sandbox-dashboard/governance.go, which decides on it,
-- and internal/assignment/authz/audit.go, which lets it expire.
use opensandbox_aks_governan.Base.{
  ℕ, ◌+◌, ◌≤◌, String, true, ◌==◌, string_eq, eq_iff, Option, some, ◌≡◌, refl, sym, ap, subst, ◌∙◌,
  arith, Result, ok, err, if◌then◌else◌,
}
use opensandbox_aks_governan.Api.{SandboxAccessRequestStatus, SandboxAccessRequest, approved_state}
use opensandbox_aks_governan.Externals.{Externals}
use opensandbox_aks_governan.Audit.Cleanup.{is_expired}
use opensandbox_aks_governan.Dashboard.Handled.{
  Handled, passed, refused, attempt, >>=-eq-passed, demand-eq-passed, attempt-eq-passed,
  passed-injective,
}
use opensandbox_aks_governan.Dashboard.Principals.{AuthenticatedIdentity}
use opensandbox_aks_governan.Dashboard.Forms.{Mutation}
use opensandbox_aks_governan.Dashboard.Requests.{
  Site, Reads, request_state, pending_state, denied_state, internal, decoded, resource_error,
  pending_request,
}
use opensandbox_aks_governan.Dashboard.Requests.Decisions.{
  approval, denial, written, conclude, approve_access_request, deny_access_request,
}
use opensandbox_aks_governan.Dashboard.Requests.Approvals.{approval-IsApproved, denial-IsDenial}
use opensandbox_aks_governan.Dashboard.Requests.Grants.{stored_request}

abbrev pub expired_state : String
expired_state = "Expired"

-- The patch of `expireAccessRequests`.
abbrev pub after_expiry : SandboxAccessRequest → SandboxAccessRequest
after_expiry request = record request { status = record request.status { state = expired_state } }

-- One write to the status of a stored request, by a handler that read the request as it is stored, or
-- by the cleanup.
pub data Step (x : Externals) (site : Site) (stored : ℕ → ℕ)
    : SandboxAccessRequest → SandboxAccessRequest → Type 0 where
  approve :
      (r : Reads) (update : SandboxAccessRequest → Result (Unit {0}))
      (who : Option AuthenticatedIdentity) (m : Mutation) (name : String)
      (a sent : SandboxAccessRequest)
      → r.request name ≡ ok (ok a)
      → (approve_access_request x site r update who m name).1 ≡ some sent
      → Step x site stored a (stored_request stored sent sent.status)
  deny :
      (r : Reads) (update : SandboxAccessRequest → Result (Unit {0}))
      (who : Option AuthenticatedIdentity) (m : Mutation) (name : String)
      (a sent : SandboxAccessRequest)
      → r.request name ≡ ok (ok a)
      → (deny_access_request x site r update who m name).1 ≡ some sent
      → Step x site stored a (stored_request stored sent sent.status)
  expire :
      (now : ℕ) (call : String → Result (Unit {0})) (a : SandboxAccessRequest)
      → is_expired now call a ≡ true
      → Step x site stored a (after_expiry a)

-- So many writes, one after another.
pub data Run (x : Externals) (site : Site) (stored : ℕ → ℕ)
    : SandboxAccessRequest → ℕ → SandboxAccessRequest → Type 0 where
  done : (a : SandboxAccessRequest) → Run x site stored a 0 a
  write :
      {a b c : SandboxAccessRequest} {n : ℕ}
      → Step x site stored a b
      → Run x site stored b n c
      → Run x site stored a (n + 1) c

-- How many writes a state can still see.
abbrev pub rank_of : String → ℕ
rank_of state = if state == pending_state then 2 else if state == approved_state then 1 else 0

abbrev pub rank : SandboxAccessRequest → ℕ
rank a = rank_of (request_state a.status)

ok-injective {ℓ} : {A : Type ℓ} {a b : A} → ok a ≡ ok b → a ≡ b
ok-injective h = cc

some_is : {a b : SandboxAccessRequest} → some a ≡ some b → a ≡ b
some_is h = cc

pending-rank : (a : SandboxAccessRequest) → request_state a.status ≡ pending_state → rank a ≡ 2
pending-rank a h = rw h refl

module _ (x : Externals) (site : Site) (stored : ℕ → ℕ) where
  pending_request-found :
      (r : Reads) (name : String) (a found : SandboxAccessRequest)
      → r.request name ≡ ok (ok a)
      → pending_request x site r name ≡ passed found
      → (a ≡ found) × (request_state found.status ≡ pending_state)
  pending_request-found r name a found read h =
      let (named, h1) =
        demand-eq-passed (x.is_dns1123_subdomain name) 400 "Invalid access request name" _ h in
      let (object, got, h2) =
        >>=-eq-passed (attempt (resource_error x site r) (r.request name)) _ h1 in
      let (request, converted, h3) = >>=-eq-passed (decoded x site r object) _ h2 in
      let (pending, h4) =
        demand-eq-passed (request_state request.status == pending_state) 409
          "Access request has already been decided" _ h3 in
      let same = passed-injective h4 in
      let object_is = attempt-eq-passed (resource_error x site r) (r.request name) got in
      let request_is = attempt-eq-passed internal object converted in
      (
        ok-injective (ok-injective (sym read ∙ object_is) ∙ request_is) ∙ same,
        subst (λ q. request_state q.status ≡ pending_state) same
            (ground (arith, eq_iff (request_state request.status) pending_state)),
      )

  written-some :
      (r : Reads) (text : String) (a : SandboxAccessRequest) (answer : Result (Unit {0}))
      (sent : SandboxAccessRequest)
      → (written x site r a text answer).1 ≡ some sent
      → sent ≡ a
  written-some r text a (err e) sent h = cc
  written-some r text a (ok u) sent h = sym (some_is h)

  concluded :
      (r : Reads) (update : SandboxAccessRequest → Result (Unit {0})) (text : String)
      (decision : Handled (SandboxAccessRequest × SandboxAccessRequestStatus))
      (sent : SandboxAccessRequest)
      → (conclude x site r update text decision).1 ≡ some sent
      → (request : SandboxAccessRequest) × (status : SandboxAccessRequestStatus) × (decision
          ≡ passed (request, status))
        × (sent ≡ record request { status = status })
  concluded r update text (refused response) sent h = cc
  concluded r update text (passed (request, status)) sent h =
      (request, status, refl, written-some r text (record request { status = status }) _ sent h)

  -- A decision by a handler is on a request that was pending, and its own state is what it sends.
  approval-pending :
      (r : Reads) (who : Option AuthenticatedIdentity) (m : Mutation) (name : String)
      (a request : SandboxAccessRequest) (status : SandboxAccessRequestStatus)
      → r.request name ≡ ok (ok a)
      → approval x site r who m name ≡ passed (request, status)
      → (request_state a.status ≡ pending_state) × (status.state ≡ approved_state)
  approval-pending r who m name a request status read h =
      let p = approval-IsApproved x site r who m name (request, status) h in
      let (same, pending) = pending_request-found r name a request read p.decidable.pending in
      (ap (λ q. request_state q.status) same ∙ pending, ap (λ q. q.state) p.sent)

  denial-pending :
      (r : Reads) (who : Option AuthenticatedIdentity) (m : Mutation) (name : String)
      (a request : SandboxAccessRequest) (status : SandboxAccessRequestStatus)
      → r.request name ≡ ok (ok a)
      → denial x site r who m name ≡ passed (request, status)
      → (request_state a.status ≡ pending_state) × (status.state ≡ denied_state)
  denial-pending r who m name a request status read h =
      let p = denial-IsDenial x site r who m name (request, status) h in
      let (same, pending) = pending_request-found r name a request read p.decidable.pending in
      (ap (λ q. request_state q.status) same ∙ pending, ap (λ q. q.state) p.sent)

  Step-rank : {a b : SandboxAccessRequest} → Step x site stored a b → rank b + 1 ≤ rank a
  unfolding approve_access_request deny_access_request is_expired
  Step-rank (approve r update who m name a sent read h) =
      let (request, status, decision, same) =
        concluded r update "approved" (approval x site r who m name) sent h in
      let (pending, state) = approval-pending r who m name a request status read decision in
      rw (pending, same, state) (ground (arith))
  Step-rank (deny r update who m name a sent read h) =
      let (request, status, decision, same) =
        concluded r update "denied" (denial x site r who m name) sent h in
      let (pending, state) = denial-pending r who m name a request status read decision in
      rw (pending, same, state) (ground (arith))
  Step-rank (expire now call a h) =
      let approved : a.status.state ≡ approved_state =
        ground (arith, eq_iff a.status.state approved_state) in
      rw approved (ground (arith))

  -- Every run of decisions and expiries on a request ends: none has more writes than the rank of the
  -- state that it starts in, which is two for a pending request, one for an approved and none for any
  -- other.
  pub Run-rank :
      {a b : SandboxAccessRequest} {n : ℕ} → Run x site stored a n b → rank b + n ≤ rank a
  Run-rank (done a) = ground (arith)
  Run-rank (write step rest) = ground (arith, Step-rank step, Run-rank rest)
