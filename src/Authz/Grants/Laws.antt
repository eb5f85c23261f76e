-- ===== src/Authz/Grants/Laws.antt =====
-- When an access request grants.
use opensandbox_aks_governan.Base.{
  ℕ, ℤ, pos, negsuc, String, Bool, true, false, ◌≡◌, ◌↔◌, ◌≤◌, ◌<◌, ◌*◌, ◌+◌, refl, sym, ap, subst,
  ◌∙◌, ◌≢◌, All, Error, is_ok-eq_ok, >>=-eq-ok, arith, List, [], ◌∷◌, ◌++◌, Option, none, some,
  eq_iff, ok, is_ok, ◌>>=◌, times64,
}
use mathlib.Core.List.{append-nil, append_assoc}
use opensandbox_aks_governan.Externals.{Externals}
use opensandbox_aks_governan.Api.{second, hour, SandboxAccessRequest, approved_state}
use opensandbox_aks_governan.Governance.Request.{validate_access_request_spec}
use opensandbox_aks_governan.Governance.Request.Laws.{
  FitsInt32, IsAllowedDuration, validate_access_request_spec_iff,
}
use opensandbox_aks_governan.Authz.Decision.{Decision}
use opensandbox_aks_governan.Authz.Grants.{
  AccessObject, unexpected, unconvertible, access, Verdict, skipped, invalid, matched, failed,
  timely, valid_approval, judge_request, absorb, collect, grant_outcome, match_access_grant_objects,
}

-- An approval in force at an instant, for at most the requested number of seconds and eight hours.
pub record InForce (seconds now : ℕ) (approved_at expires_at : ℕ) : Type 0 where
  pub begun : approved_at ≤ now
  pub not_over : now < expires_at
  pub as_requested : expires_at ≤ approved_at + seconds * second
  pub bounded : expires_at ≤ approved_at + 8 * hour

-- A live request, approved by a valid identity with a reason, for the decision's assignment, Pod,
-- policy revision and exact target, and in force.
pub record IsGrant (x : Externals) (d : Decision) (now : ℕ) (r : SandboxAccessRequest)
    : Type 0 where
  pub live : r.deleting ≡ false
  pub approved : r.status.state ≡ approved_state
  pub assignment_uid : r.spec.assignment_ref.uid ≡ d.assignment_uid
  pub assignment_name : r.spec.assignment_ref.name ≡ d.assignment_name
  pub pod : r.spec.pod_uid ≡ d.pod_uid
  pub revision : r.spec.base_policy_revision ≡ d.capability_bundle_revision
  pub valid : is_ok (validate_access_request_spec x r.spec) ≡ true
  pub backend : r.spec.backend ≡ d.backend
  pub method : r.spec.method ≡ d.method
  pub host : r.spec.host ≡ d.host
  pub path : r.spec.path ≡ d.path
  pub approval : valid_approval x r now ≡ true

judge_request_sound :
    (x : Externals) (d : Decision) (now : ℕ) (r : SandboxAccessRequest) (name : String)
    → judge_request x d now r ≡ matched name
    → IsGrant x d now r × (r.name ≡ name)
unfolding judge_request
judge_request_sound x d now r name e = ground (
  arith,
  eq_iff r.status.state approved_state,
  eq_iff r.spec.assignment_ref.uid d.assignment_uid,
  eq_iff r.spec.assignment_ref.name d.assignment_name,
  eq_iff r.spec.pod_uid d.pod_uid,
  eq_iff r.spec.base_policy_revision d.capability_bundle_revision,
  eq_iff r.spec.backend d.backend,
  eq_iff r.spec.method d.method,
  eq_iff r.spec.host d.host,
  eq_iff r.spec.path d.path,
)

pub judge_request_complete :
    (x : Externals) (d : Decision) (now : ℕ) (r : SandboxAccessRequest)
    → IsGrant x d now r
    → judge_request x d now r ≡ matched r.name
unfolding judge_request
judge_request_complete x d now r g = ground (
  arith,
  eq_iff r.status.state approved_state,
  eq_iff r.spec.assignment_ref.uid d.assignment_uid,
  eq_iff r.spec.assignment_ref.name d.assignment_name,
  eq_iff r.spec.pod_uid d.pod_uid,
  eq_iff r.spec.base_policy_revision d.capability_bundle_revision,
  eq_iff r.spec.backend d.backend,
  eq_iff r.spec.method d.method,
  eq_iff r.spec.host d.host,
  eq_iff r.spec.path d.path,
)

-- The times of an approval that the code accepts.
timely-InForce :
    (seconds now approved_at expires_at : ℕ)
    → seconds ≤ 28800
    → timely (pos seconds) now (some approved_at) (some expires_at) ≡ true
    → InForce seconds now approved_at expires_at
unfolding times64
timely-InForce seconds now approved_at expires_at s h = ground arith

valid_approval-timely :
    (x : Externals) (r : SandboxAccessRequest) (now : ℕ)
    → valid_approval x r now ≡ true
    → timely r.spec.requested_duration_seconds now r.status.approved_at r.status.expires_at ≡ true
unfolding valid_approval
valid_approval-timely x r now h = ground arith

-- An approval with its times, for a whole number of seconds.
pub record IsApproval (r : SandboxAccessRequest) (now : ℕ) : Type 0 where
  pub seconds : ℕ
  pub approved_at : ℕ
  pub expires_at : ℕ
  pub requested : r.spec.requested_duration_seconds ≡ pos seconds
  pub approved : r.status.approved_at ≡ some approved_at
  pub expires : r.status.expires_at ≡ some expires_at
  pub in_force : InForce seconds now approved_at expires_at

IsApproval-of_timely :
    (r : SandboxAccessRequest) (now : ℕ) (n : ℤ) (a e : Option ℕ)
    → r.spec.requested_duration_seconds ≡ n
    → r.status.approved_at ≡ a
    → r.status.expires_at ≡ e
    → IsAllowedDuration n
    → timely n now a e ≡ true
    → IsApproval r now
IsApproval-of_timely r now (negsuc n) a e p q s allowed h = absurd allowed
IsApproval-of_timely r now (pos n) none e p q s allowed h = cc
IsApproval-of_timely r now (pos n) (some a) none p q s allowed h = cc
IsApproval-of_timely r now (pos n) (some a) (some e) p q s allowed h = record {
  seconds = n;
  approved_at = a;
  expires_at = e;
  requested = p;
  approved = q;
  expires = s;
  in_force = timely-InForce n now a e allowed.1 h;
}

-- A request that grants is in force: its approval has begun and is not over, and lasts at most as
-- long as was requested and at most eight hours.
pub IsGrant-IsApproval :
    (x : Externals) (d : Decision) (now : ℕ) (r : SandboxAccessRequest)
    → FitsInt32 r.spec.requested_duration_seconds
    → IsGrant x d now r
    → IsApproval r now
IsGrant-IsApproval x d now r fits g =
    IsApproval-of_timely r now r.spec.requested_duration_seconds r.status.approved_at
      r.status.expires_at refl refl refl
      ((validate_access_request_spec_iff x r.spec fits).0 (is_ok-eq_ok g.valid)).duration
      (valid_approval-timely x r now g.approval)

-- An object that the loop can read.
abbrev pub IsReadable : AccessObject → Type 0
IsReadable unexpected = ⊥
IsReadable (unconvertible deleting) = deleting ≡ true
IsReadable (access r) = Unit

abbrev pub NoGrant : Externals → Decision → ℕ → AccessObject → Type 0
NoGrant x d now (access r) = ¬ IsGrant x d now r
NoGrant x d now _ = Unit

-- The names of the granting requests among the objects, in their order.
pub data Granted (x : Externals) (d : Decision) (now : ℕ)
    : List AccessObject → List String → Type 0 where
  none_left : Granted x d now [] []
  pass :
      {o : AccessObject} {os : List AccessObject} {names : List String}
      → NoGrant x d now o
      → Granted x d now os names
      → Granted x d now (o ∷ os) names
  grant :
      {r : SandboxAccessRequest} {os : List AccessObject} {names : List String}
      → IsGrant x d now r
      → Granted x d now os names
      → Granted x d now (access r ∷ os) (r.name ∷ names)

module _ (x : Externals) (d : Decision) (now : ℕ) where
  not-IsGrant_of_verdict :
      (r : SandboxAccessRequest)
      → ((name : String) → judge_request x d now r ≢ matched name)
      → ¬ IsGrant x d now r
  not-IsGrant_of_verdict r other g = other r.name (judge_request_complete x d now r g)

  -- What the loop has found when it ends, after what it started with.
  Found : List AccessObject → List String → List String → Type 0
  Found os m m' = (names : List String) × (m' ≡ m ++ names) × Granted x d now os names

  -- One round: a verdict that lets the loop go on, and what it says of the object.
  round_sound :
      (r : SandboxAccessRequest) (os : List AccessObject) (m : List String) (i : Bool)
      (m' : List String) (i' : Bool)
      → ((n : List String) (j : Bool) → collect x d now os n j ≡ ok (m', i') → Found os n m')
      → (v : Verdict) → judge_request x d now r ≡ v
      → (absorb v m i >>= λ p. collect x d now os p.0 p.1) ≡ ok (m', i')
      → Found (access r ∷ os) m m'
  unfolding Found
  round_sound r os m i m' i' later skipped judged e =
      let (names, same, granted) = later m i e in
      (names, same, pass (not-IsGrant_of_verdict r (λ name k. cc)) granted)
  round_sound r os m i m' i' later invalid judged e =
      let (names, same, granted) = later m true e in
      (names, same, pass (not-IsGrant_of_verdict r (λ name k. cc)) granted)
  round_sound r os m i m' i' later (matched name) judged e =
      let (names, same, granted) = later (m ++ name ∷ []) i e in
      let (good, named) = judge_request_sound x d now r name judged in
      (r.name ∷ names, same ∙ rw (named) (append_assoc m (name ∷ []) names), grant good granted)
  round_sound r os m i m' i' later (failed error) judged e = cc

  collect_sound :
      (os : List AccessObject) (m : List String) (i : Bool) (m' : List String) (i' : Bool)
      → collect x d now os m i ≡ ok (m', i')
      → Found os m m'
  unfolding collect Found
  collect_sound [] m i m' i' e = ([], cc (append-nil m), none_left)
  collect_sound (unexpected ∷ os) m i m' i' e = cc
  collect_sound (unconvertible true ∷ os) m i m' i' e =
      let (names, same, granted) = collect_sound os m i m' i' e in (names, same, pass tt granted)
  collect_sound (unconvertible false ∷ os) m i m' i' e = cc
  collect_sound (access r ∷ os) m i m' i' e =
      round_sound r os m i m' i' (λ n j. collect_sound os n j m' i') (judge_request x d now r) refl
        e

  judge_request-ne-failed :
      (r : SandboxAccessRequest) (error : Error) → judge_request x d now r ≢ failed error
  unfolding judge_request
  judge_request-ne-failed r error = ground arith

  -- What the loop ends with, if it meets no object that it cannot read.
  Ends : List AccessObject → List String → Bool → Type 0
  Ends os m i = (names : List String) × (i' : Bool) × (collect x d now os m i ≡ ok (m ++ names, i'))

  round_complete :
      (os : List AccessObject) (m : List String) (i : Bool)
      → ((n : List String) (j : Bool) → Ends os n j)
      → (v : Verdict) → ((error : Error) → v ≢ failed error)
      → (names : List String) × (i' : Bool) × ((absorb v m i >>= λ p. collect x d now os p.0 p.1)
          ≡ ok (m ++ names, i'))
  unfolding Ends
  round_complete os m i later skipped readable = later m i
  round_complete os m i later invalid readable = later m true
  round_complete os m i later (matched name) readable =
      let (names, i', e) = later (m ++ name ∷ []) i in
      (name ∷ names, i', rw (← append_assoc m (name ∷ []) names) e)
  round_complete os m i later (failed error) readable = absurd (readable error refl)

  collect_complete :
      (os : List AccessObject) (m : List String) (i : Bool) → All IsReadable os → Ends os m i
  unfolding collect Ends
  collect_complete [] m i readable = ([], i, rw (append-nil m))
  collect_complete (unexpected ∷ os) m i readable = absurd readable.0
  collect_complete (unconvertible true ∷ os) m i readable = collect_complete os m i readable.1
  collect_complete (unconvertible false ∷ os) m i readable = cc readable.0
  collect_complete (access r ∷ os) m i readable =
      round_complete os m i (λ n j. collect_complete os n j readable.1) (judge_request x d now r)
        (judge_request-ne-failed r)

  Granted-unique :
      {os : List AccessObject} {names others : List String}
      → Granted x d now os names
      → Granted x d now os others
      → names ≡ others
  Granted-unique none_left none_left = refl
  Granted-unique (pass _ g) (pass _ h) = Granted-unique g h
  Granted-unique (pass other g) (grant good h) = absurd (other good)
  Granted-unique (grant good g) (pass other h) = absurd (other good)
  Granted-unique (grant {r} good g) (grant good' h) = ap (λ ns. r.name ∷ ns) (Granted-unique g h)

  grant_outcome-one :
      (m : List String) (i : Bool) (name text : String)
      → grant_outcome m i ≡ (name, text, true)
      → m ≡ name ∷ []
  grant_outcome-one [] true name text e = cc (ap (λ p. p.2) e)
  grant_outcome-one [] false name text e = cc (ap (λ p. p.2) e)
  grant_outcome-one (n ∷ []) i name text e = ap (λ p. p.0 ∷ []) e
  grant_outcome-one (n ∷ _ ∷ _) i name text e = cc (ap (λ p. p.2) e)

  -- A grant is used only if exactly one request among the objects grants, and then by its name.
  pub match_access_grant_objects_sound :
      (os : List AccessObject) (name text : String)
      → match_access_grant_objects x os d now ≡ ok (name, text, true)
      → Granted x d now os (name ∷ [])
  unfolding match_access_grant_objects Found
  match_access_grant_objects_sound os name text e =
      let ((m, i), collected, outcome) =
        >>=-eq-ok (collect x d now os [] false) (λ r. ok (grant_outcome r.0 r.1)) e in
      let (names, same, granted) = collect_sound os [] false m i collected in
      subst (Granted x d now os) (sym same ∙ grant_outcome-one m i name text (ground arith)) granted

  -- Among readable objects a request is used exactly when it is the only one that grants.
  pub match_access_grant_objects_iff :
      (os : List AccessObject) (name : String)
      → All IsReadable os
      → (match_access_grant_objects x os d now ≡ ok (name, "", true))
        ↔ Granted x d now os (name ∷ [])
  unfolding match_access_grant_objects Found Ends
  match_access_grant_objects_iff os name readable = (
    match_access_grant_objects_sound os name "",
    λ granted.
        let (names, i, collected) = collect_complete os [] false readable in
        let (names', same, granted') = collect_sound os [] false names i collected in
        let only : names ≡ name ∷ [] = same ∙ Granted-unique granted' granted in
        rw (collected, only),
  )
