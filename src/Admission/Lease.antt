-- ===== src/Admission/Lease.antt =====
-- internal/assignment/admission/admission.go: `acquireTenantLease`, the function that releases the
-- lease, and `leaseAvailable`. The server's one lease of a tenant is a parameter.
pub mod Laws
use opensandbox_aks_governan.Base.{
  ℕ, suc, ℤ, pos, negsuc, ◌+◌, ◌*◌, leb, String, Bool, true, false, Option, none, some, List, [],
  ◌∷◌, if◌then◌else◌, is_empty, Error, not_found, already_exists, conflict, canceled, message,
  wrapped, Result, ok, err,
}
use opensandbox_aks_governan.Api.{second}
use opensandbox_aks_governan.Store.{is_conflict, is_existing}
use opensandbox_aks_governan.Facade.Lifecycle.{is_missing}

-- A `Lease`: its UID and its spec.
pub record Lease : Type 0 where
  pub uid : String
  pub version : String
  pub holder : Option String
  pub duration_seconds : Option ℤ
  pub renew_time : Option ℕ

-- The API server's calls on the tenant's lease; a delete can name the UID that it means.
pub record LeaseServer : Type 1 where
  pub World : Type 0
  pub get : World → Result Lease
  pub create : Lease → World → World × Result Lease
  pub update : Lease → World → World × Result Lease
  pub delete : Option String → World → World × Result (Unit {0})

-- `time.Duration(duration) * time.Second` after a time is no later than another.
abbrev pub expires_by : ℕ → ℤ → ℕ → Bool
expires_by renewed (pos n) now = leb (renewed + n * second) now
expires_by renewed (negsuc n) now = leb renewed (now + suc n * second)

abbrev pub renewed_before : Option ℕ → Option ℤ → ℕ → Bool
renewed_before none duration now = true
renewed_before (some renewed) none now = true
renewed_before (some renewed) (some duration) now = expires_by renewed duration now

abbrev pub held_before : Option String → Bool → Bool
held_before none expired = true
held_before (some holder) expired = if is_empty holder then true else expired

unfoldable pub lease_available : Lease → ℕ → Bool
lease_available l now = held_before l.holder (renewed_before l.renew_time l.duration_seconds now)

abbrev pub lease_seconds : ℕ
lease_seconds = 15

abbrev pub taken : Lease → String → ℕ → Lease
taken l holder stamp = record l {
  holder = some holder;
  duration_seconds = some (pos lease_seconds);
  renew_time = some stamp;
}

abbrev pub fresh : Lease
fresh = record { uid = ""; version = ""; holder = none; duration_seconds = none; renew_time = none }

-- One round of the loop; an acquired lease keeps the precondition of its release.
pub data Attempt : Type 0 where
  acquired : Option String → Attempt
  again : Attempt
  failed : Error → Attempt

module _ (k : LeaseServer) where
  abbrev pub after_create : k.World × Result Lease → k.World × Attempt
  after_create (s, ok l) = (s, acquired none)
  after_create (s, err e) = if is_existing e then (s, again) else (s, failed e)

  abbrev pub after_update : k.World × Result Lease → k.World × Attempt
  after_update (s, ok l) = (s, acquired (some l.uid))
  after_update (s, err e) = if is_conflict e then (s, again) else (s, failed e)

  abbrev pub after_get : String → ℕ → ℕ → k.World → Result Lease → k.World × Attempt
  after_get holder stamp now s (err e) =
      let made = after_create (k.create (taken fresh holder stamp) s) in
      if is_missing e then made else (s, failed e)
  after_get holder stamp now s (ok l) =
      let won = after_update (k.update (taken l holder stamp) s) in
      if lease_available l now then won else (s, again)

  -- `stamp` is the time that is written, `now` the later one of the test.
  unfoldable pub try_lease : String → ℕ → ℕ → k.World → k.World × Attempt
  try_lease holder stamp now s = after_get holder stamp now s (k.get s)

  -- A round: what other clients did before it, and its two times.
  pub record Round : Type 0 where
    pub others : k.World → k.World
    pub stamp : ℕ
    pub now : ℕ

  abbrev pub after_round :
      k.World × Attempt → k.World × Result (Option String) → k.World × Result (Option String)
  after_round (s, acquired condition) later = (s, ok condition)
  after_round (s, again) later = later
  after_round (s, failed e) later = (s, err e)

  -- `acquireTenantLease`: the rounds until the context is done.
  unfoldable pub acquire_tenant_lease :
      String → List Round → k.World → k.World × Result (Option String)
  acquire_tenant_lease holder [] s = (s, err canceled)
  acquire_tenant_lease holder (r ∷ rest) s =
      let now = try_lease holder r.stamp r.now (r.others s) in
      let later = acquire_tenant_lease holder rest now.0 in after_round now later

  unfoldable pub release : Option String → k.World → k.World
  release condition s = (k.delete condition s).0
