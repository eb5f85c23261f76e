-- ===== src/Examples/Lease.antt =====
-- A tenant's lease, held by one and taken over by another.
use opensandbox_aks_governan.Base.{
  String, Option, none, some, ◌≡◌, refl, arith, ◌*◌, if◌then◌else◌, ◌==◌, string_eq, eq_iff,
  not_found, already_exists, conflict, Result, ok, err,
}
use opensandbox_aks_governan.Api.{second}
use opensandbox_aks_governan.Admission.Lease.{
  Lease, LeaseServer, lease_available, taken, fresh, again, try_lease, release,
}
use opensandbox_aks_governan.Admission.Lease.Laws.{
  SameSpec, LeaseLaws, try_lease-again, release-taken,
}

abbrev World : Type 0
World = Option Lease

abbrev read : World → Result Lease
read none = err not_found
read (some l) = ok l

abbrev named : Lease → Lease
named l = record l { uid = "lease-uid" }

abbrev add : Lease → World → World × Result Lease
add l none = (some (named l), ok (named l))
add l (some p) = (some p, err already_exists)

abbrev change : Lease → World → World × Result Lease
change l none = (none, err not_found)
change l (some p) = if p.uid == l.uid then (some l, ok l) else (some p, err conflict)

abbrev remove : Option String → World → World × Result (Unit {0})
remove condition none = (none, err not_found)
remove none (some p) = (none, ok tt)
remove (some uid) (some p) = if p.uid == uid then (none, ok tt) else (some p, err conflict)

abbrev leases : LeaseServer
leases = record { World = World; get = read; create = add; update = change; delete = remove }

add_read : (l m : Lease) (s : World) → (add l s).1 ≡ ok m → (read (add l s).0 ≡ ok m) × SameSpec m l
add_read l m none h =
    (h, record { holder = ground (arith); duration = ground (arith); renewal = ground (arith) })
add_read l m (some p) h = absurd (cc)

change_read :
    (l m : Lease) (s : World)
    → (change l s).1 ≡ ok m
    → (read (change l s).0 ≡ ok m) × SameSpec m l × (m.uid ≡ l.uid)
change_read l m none h = absurd (cc)
change_read l m (some p) h = (
  ground (arith),
  record { holder = ground (arith); duration = ground (arith); renewal = ground (arith) },
  ground (arith),
)

remove_any : (l : Lease) (s : World) → read s ≡ ok l → read (remove none s).0 ≡ err not_found
remove_any l none h = refl
remove_any l (some p) h = refl

remove_own :
    (l : Lease) (s : World) → read s ≡ ok l → read (remove (some l.uid) s).0 ≡ err not_found
remove_own l none h = refl
remove_own l (some p) h = ground (arith, eq_iff p.uid l.uid)

lease_laws : LeaseLaws leases
lease_laws = record {
  get-create = add_read;
  get-update = change_read;
  delete_any = remove_any;
  delete_own = remove_own;
}

-- The lease of the first holder, written at time 0.
abbrev first_lease : Lease
first_lease = named (taken fresh "holder-a" 0)

try_lease-again_example :
    try_lease leases "holder-b" (5 * second) (5 * second) (some first_lease)
    ≡ (some first_lease, again)
unfolding try_lease
try_lease-again_example =
    try_lease-again leases lease_laws "holder-a" "holder-b" 0 0 (5 * second) (5 * second) none none
      (some first_lease) refl refl refl (omega arith)

release-taken_example :
    read (
      release leases none
        (try_lease leases "holder-b" (16 * second) (16 * second) (some first_lease)).0)
    ≡ err not_found
unfolding try_lease lease_available
release-taken_example =
    release-taken leases lease_laws "holder-a" "holder-b" 0 0 (16 * second) (16 * second) none
      (some "lease-uid") none (some first_lease) first_lease first_lease refl refl refl refl refl
