-- ===== src/Audit/Cleanup.antt =====
-- internal/assignment/authz/audit.go: `cleanupEvents`, `expireAccessRequests`, `cleanup`. The lists and
-- what the API server answers to a delete or a patch are arguments; the calls are listed, in order.
pub mod Laws
use opensandbox_aks_governan.Base.{
  ℕ, String, Bool, true, false, not, ◌&&◌, ◌||◌, Option, none, some, List, [], ◌∷◌, ◌-◌, ltb, leb,
  nat_beq, if◌then◌else◌, ◌==◌, string_eq, Error, not_found, already_exists, conflict, canceled,
  message, wrapped, Result, ok, err,
}
use opensandbox_aks_governan.Api.{SandboxAccessRequest, approved_state}
use opensandbox_aks_governan.Store.{is_conflict}
use opensandbox_aks_governan.Facade.Lifecycle.{is_missing}

-- An event: the time in its spec, if it parses, and its creation; 0 is Go's zero time.
pub record StoredEvent : Type 0 where
  pub name : String
  pub timestamp : Option ℕ
  pub created_at : ℕ

-- The calls that were made, and how the loop ended.
pub record Cleaned : Type 0 where
  pub calls : List String
  pub result : Result (Unit {0})

abbrev pub event_time : StoredEvent → ℕ
event_time e = elim e.timestamp [ none ↦ e.created_at | some t ↦ t ]

-- Past its retention. A retention beyond the present gives a time before zero, before which nothing is.
unfoldable pub is_old : ℕ → ℕ → StoredEvent → Bool
is_old now retention e = not (nat_beq (event_time e) 0) && ltb (event_time e) (now - retention)

abbrev pub called : String → Cleaned → Cleaned
called name rest = record { calls = name ∷ rest.calls; result = rest.result }

abbrev pub ended : String → Error → Cleaned
ended name e = record { calls = name ∷ []; result = err e }

-- After a call: the rest, or the error that is not tolerated.
abbrev pub tolerate : (Error → Bool) → String → Result (Unit {0}) → Cleaned → Cleaned
tolerate tolerated name (ok _) rest = called name rest
tolerate tolerated name (err e) rest = if tolerated e then called name rest else ended name e

abbrev pub finished : Cleaned
finished = record { calls = []; result = ok tt }

module _ (now : ℕ) (call : String → Result (Unit {0})) where
  -- `call` deletes the event of a name.
  unfoldable pub cleanup_events : ℕ → List StoredEvent → Cleaned
  cleanup_events retention [] = finished
  cleanup_events retention (e ∷ rest) =
      let later = cleanup_events retention rest in
      let here = tolerate is_missing e.name (call e.name) later in
      if is_old now retention e then here else later

  abbrev pub expired_by : Option ℕ → Bool
  expired_by none = false
  expired_by (some expiry) = leb expiry now

  unfoldable pub is_expired : SandboxAccessRequest → Bool
  is_expired r = r.status.state == approved_state && expired_by r.status.expires_at

  abbrev pub is_tolerated : Error → Bool
  is_tolerated e = is_missing e || is_conflict e

  -- `call` sets the state of the request of a name to Expired.
  unfoldable pub expire_access_requests : List SandboxAccessRequest → Cleaned
  expire_access_requests [] = finished
  expire_access_requests (r ∷ rest) =
      let later = expire_access_requests rest in
      let here = tolerate is_tolerated r.name (call r.name) later in
      if is_expired r then here else later
