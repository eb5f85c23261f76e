-- ===== src/Audit/Cleanup/Laws.antt =====
-- What the cleanup removes and expires, and what it leaves alone.
use opensandbox_aks_governan.Base.{
  ℕ, String, Bool, true, false, Option, none, some, List, [], ◌∷◌, ◌≡◌, ◌≤◌, refl, ap, arith,
  string_eq, eq_iff, keep, map, Error, Result, ok, err, Bool-cases, inl, inr,
}
use opensandbox_aks_governan.Externals.{Externals}
use opensandbox_aks_governan.Api.{SandboxAccessRequest, approved_state}
use opensandbox_aks_governan.Facade.Lifecycle.{is_missing}
use opensandbox_aks_governan.Authz.Grants.{timely, valid_approval}
use opensandbox_aks_governan.Audit.Cleanup.{
  StoredEvent, Cleaned, is_old, tolerate, cleanup_events, expired_by, is_expired, is_tolerated,
  expire_access_requests,
}

tolerate-result :
    (tolerated : Error → Bool) (name : String) (answer : Result (Unit {0})) (rest : Cleaned)
    → (tolerate tolerated name answer rest).result ≡ ok tt
    → ((tolerate tolerated name answer rest).calls ≡ name ∷ rest.calls) × (rest.result ≡ ok tt)
tolerate-result tolerated name (ok tt) rest h = (refl, h)
tolerate-result tolerated name (err e) rest h = elim (Bool-cases (tolerated e)) [
  | inl kept ↦ rw kept (refl, rw kept at h)
  | inr bad ↦ absurd (cc (rw bad at h))
]

module _ (now : ℕ) (call : String → Result (Unit {0})) where
  -- A cleanup that ends without an error has tried to delete exactly the listed events that are past
  -- the retention, each once and in order, and no other.
  pub cleanup_events-keep :
      (retention : ℕ) (events : List StoredEvent)
      → (cleanup_events now call retention events).result ≡ ok tt
      → (cleanup_events now call retention events).calls
        ≡ map (λ e. e.name) (keep (is_old now retention) events)
  unfolding cleanup_events
  cleanup_events-keep retention [] h = refl
  cleanup_events-keep retention (e ∷ rest) h = elim (Bool-cases (is_old now retention e)) [
    | inl old ↦
        let (calls, done) =
          tolerate-result is_missing e.name (call e.name) (cleanup_events now call retention rest)
            (rw old at h) in
        rw (old, calls) (ap (λ l. e.name ∷ l) (cleanup_events-keep retention rest done))
    | inr recent ↦ rw recent (cleanup_events-keep retention rest (rw recent at h))
  ]

  -- A request that is approved and past its end.
  pub record IsOver (r : SandboxAccessRequest) : Type 0 where
    pub approved : r.status.state ≡ approved_state
    pub expiry : ℕ
    pub ends : r.status.expires_at ≡ some expiry
    pub past : expiry ≤ now

  -- The names of those requests of a list that are over, each once and in order.
  pub data OverNames : List SandboxAccessRequest → List String → Type 0 where
    ended_list : OverNames [] []
    over :
        {r : SandboxAccessRequest} {rest : List SandboxAccessRequest} {names : List String}
        → IsOver r
        → OverNames rest names
        → OverNames (r ∷ rest) (r.name ∷ names)
    current :
        {r : SandboxAccessRequest} {rest : List SandboxAccessRequest} {names : List String}
        → ¬ IsOver r
        → OverNames rest names
        → OverNames (r ∷ rest) names

  expired_by-past :
      (end : Option ℕ)
      → expired_by now call end ≡ true
      → (expiry : ℕ) × (end ≡ some expiry) × (expiry ≤ now)
  expired_by-past none h = cc
  expired_by-past (some expiry) h = (expiry, refl, ground (arith))

  past-expired_by :
      (end : Option ℕ) (expiry : ℕ)
      → end ≡ some expiry
      → expiry ≤ now
      → expired_by now call end ≡ true
  past-expired_by none expiry h k = cc
  past-expired_by (some e) expiry h k = ground (arith)

  is_expired-IsOver : (r : SandboxAccessRequest) → is_expired now call r ≡ true → IsOver r
  unfolding is_expired
  is_expired-IsOver r h =
      let (expiry, ends, past) = expired_by-past r.status.expires_at (ground (arith)) in
      record {
        approved = ground (arith, eq_iff r.status.state approved_state);
        expiry = expiry;
        ends = ends;
        past = past;
      }

  IsOver-is_expired : (r : SandboxAccessRequest) → IsOver r → is_expired now call r ≡ true
  unfolding is_expired
  IsOver-is_expired r o =
      let past = past-expired_by r.status.expires_at o.expiry o.ends o.past in
      ground (arith, eq_iff r.status.state approved_state, o.approved)

  expire_access_requests-OverNames :
      (requests : List SandboxAccessRequest)
      → (expire_access_requests now call requests).result ≡ ok tt
      → OverNames requests (expire_access_requests now call requests).calls
  unfolding expire_access_requests
  expire_access_requests-OverNames [] h = ended_list
  expire_access_requests-OverNames (r ∷ rest) h = elim (Bool-cases (is_expired now call r)) [
    | inl old ↦
        let (calls, done) =
          tolerate-result (is_tolerated now call) r.name (call r.name)
            (expire_access_requests now call rest) (rw old at h) in
        rw (old, calls)
          (over (is_expired-IsOver r old) (expire_access_requests-OverNames rest done))
    | inr new ↦ rw new (
        current (λ o. let both : is_expired now call r ≡ true = IsOver-is_expired r o in cc)
          (expire_access_requests-OverNames rest (rw new at h)))
  ]

  untimely :
      (seconds : _) (approved expiry : Option ℕ)
      → expired_by now call expiry ≡ true
      → timely seconds now approved expiry ≡ false
  untimely seconds none expiry h = refl
  untimely seconds (some a) none h = refl
  untimely seconds (some a) (some e) h = ground (arith)

  -- A cleanup that ends without an error has tried to expire exactly the listed requests that are
  -- approved and whose end is not after the present, each once and in their order, and none of these
  -- could still be granted at that time.
  pub expire_access_requests-valid_approval :
      (x : Externals) (requests : List SandboxAccessRequest)
      → (expire_access_requests now call requests).result ≡ ok tt
      → OverNames requests (expire_access_requests now call requests).calls
        × ((r : SandboxAccessRequest) → IsOver r → valid_approval x r now ≡ false)
  unfolding valid_approval
  expire_access_requests-valid_approval x requests h = (
    expire_access_requests-OverNames requests h,
    λ r o. ground (
      arith,
      untimely r.spec.requested_duration_seconds r.status.approved_at r.status.expires_at
          (past-expired_by r.status.expires_at o.expiry o.ends o.past),
    ),
  )
