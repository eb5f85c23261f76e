-- ===== src/Admission/Lease/Laws.antt =====
-- Who holds the lease, and what a late release does to it.
use opensandbox_aks_governan.Base.{
  ℕ, ◌+◌, ◌*◌, ◌<◌, String, false, Option, none, some, ◌≡◌, refl, sym, ap, ◌∙◌, arith, is_empty,
  not_found, Result, ok, err, Bool-cases, inl, inr, ◌⊎◌,
}
use opensandbox_aks_governan.Api.{second}
use opensandbox_aks_governan.Facade.Lifecycle.{is_missing}
use opensandbox_aks_governan.Admission.Lease.{
  Lease, LeaseServer, lease_available, lease_seconds, taken, fresh, acquired, again, after_create,
  after_update, after_get, try_lease, release,
}

-- The spec that is sent is the spec that is kept.
pub record SameSpec (l m : Lease) : Type 0 where
  pub holder : l.holder ≡ m.holder
  pub duration : l.duration_seconds ≡ m.duration_seconds
  pub renewal : l.renew_time ≡ m.renew_time

-- Documented behaviour of the API server: a write that succeeds is read back, an update keeps the
-- UID, and a delete removes the lease that is there if it names its UID or no UID.
pub record LeaseLaws (k : LeaseServer) : Type 0 where
  pub get-create :
      (l m : Lease) (s : k.World)
      → (k.create l s).1 ≡ ok m
      → (k.get (k.create l s).0 ≡ ok m) × SameSpec m l
  pub get-update :
      (l m : Lease) (s : k.World)
      → (k.update l s).1 ≡ ok m
      → (k.get (k.update l s).0 ≡ ok m) × SameSpec m l × (m.uid ≡ l.uid)
  pub delete_any :
      (l : Lease) (s : k.World) → k.get s ≡ ok l → k.get (k.delete none s).0 ≡ err not_found
  pub delete_own :
      (l : Lease) (s : k.World) → k.get s ≡ ok l → k.get (k.delete (some l.uid) s).0 ≡ err not_found

abbrev Condition : Option String → Lease → Type 0
Condition condition l = (condition ≡ none) ⊎ (condition ≡ some l.uid)

module _ (k : LeaseServer) (laws : LeaseLaws k) where
  -- What an acquired lease looks like.
  abbrev Acquired : String → ℕ → Option String → k.World → Type 0
  Acquired holder stamp condition s =
      (m : Lease) × (k.get s ≡ ok m) × SameSpec m (taken fresh holder stamp) × Condition condition m

  created-Acquired :
      (holder : String) (stamp : ℕ) (condition : Option String) (s : k.World)
      → (outcome : k.World × Result Lease) → k.create (taken fresh holder stamp) s ≡ outcome
      → (after_create k outcome).1 ≡ acquired condition
      → Acquired holder stamp condition (after_create k outcome).0
  created-Acquired holder stamp condition s (t, err e) made h = absurd (ground (arith))
  created-Acquired holder stamp condition s (t, ok m) made h =
      let (read, same) = laws.get-create (taken fresh holder stamp) m s (ap (λ z. z.1) made) in
      (m, ap (λ z. k.get z.0) (sym made) ∙ read, same, inl (ground (arith)))

  updated-Acquired :
      (holder : String) (stamp : ℕ) (condition : Option String) (l : Lease) (s : k.World)
      → (outcome : k.World × Result Lease) → k.update (taken l holder stamp) s ≡ outcome
      → (after_update k outcome).1 ≡ acquired condition
      → Acquired holder stamp condition (after_update k outcome).0
        × ((m : Lease) → k.get (after_update k outcome).0 ≡ ok m → m.uid ≡ l.uid)
  updated-Acquired holder stamp condition l s (t, err e) made h = absurd (ground (arith))
  updated-Acquired holder stamp condition l s (t, ok m) made h =
      let (read, same, kept) = laws.get-update (taken l holder stamp) m s (ap (λ z. z.1) made) in
      let here = ap (λ z. k.get z.0) (sym made) ∙ read in
      (
        (
          m,
          here,
          record { holder = same.holder; duration = same.duration; renewal = same.renewal },
          inr (ground (arith)),
        ),
        λ n there. ap uid_of (sym there ∙ here) ∙ kept,
      )
    where
      uid_of : Result Lease → String
      uid_of (ok n) = n.uid
      uid_of (err e) = ""

  try_lease-Acquired :
      (holder : String) (stamp now : ℕ) (condition : Option String) (s : k.World)
      → (try_lease k holder stamp now s).1 ≡ acquired condition
      → Acquired holder stamp condition (try_lease k holder stamp now s).0
  unfolding try_lease
  try_lease-Acquired holder stamp now condition s h = from (k.get s) h
    where
      from :
          (answer : Result Lease)
          → (after_get k holder stamp now s answer).1 ≡ acquired condition
          → Acquired holder stamp condition (after_get k holder stamp now s answer).0
      from (err e) g = elim (Bool-cases (is_missing e)) [
        | inl missing ↦ rw missing (
            created-Acquired holder stamp condition s (k.create (taken fresh holder stamp) s) refl
              (rw missing at g))
        | inr other ↦ absurd (ground (arith))
      ]
      from (ok l) g = elim (Bool-cases (lease_available l now)) [
        | inl free ↦
            rw free
              (updated-Acquired holder stamp condition l s (k.update (taken l holder stamp) s) refl
                (rw free at g)).0
        | inr held ↦ absurd (ground (arith))
      ]

  taken_over :
      (holder : String) (stamp now : ℕ) (condition : Option String) (l : Lease) (s : k.World)
      → k.get s ≡ ok l
      → (try_lease k holder stamp now s).1 ≡ acquired condition
      → (m : Lease) × (k.get (try_lease k holder stamp now s).0 ≡ ok m) × (m.uid ≡ l.uid)
  unfolding try_lease
  taken_over holder stamp now condition l s there h = elim (Bool-cases (lease_available l now)) [
    | inl free ↦
        let ((m, read, same, c), kept) =
          updated-Acquired holder stamp condition l s (k.update (taken l holder stamp) s) refl
            (rw (there, free) at h) in
        rw (there, free) (m, read, kept m read)
    | inr held ↦ absurd (cc (rw (there, held) at h))
  ]

  -- While nobody changes a lease that was acquired, nobody else acquires it before fifteen seconds
  -- have passed since the time that its holder wrote into it: every attempt has to wait.
  pub try_lease-again :
      (holder other : String) (stamp now later_stamp later : ℕ) (condition : Option String)
      (s t : k.World)
      → is_empty holder ≡ false
      → (try_lease k holder stamp now s).1 ≡ acquired condition
      → k.get t ≡ k.get (try_lease k holder stamp now s).0
      → later < stamp + lease_seconds * second
      → try_lease k other later_stamp later t ≡ (t, again)
  unfolding try_lease lease_available
  try_lease-again holder other stamp now later_stamp later condition s t named h same early =
      let (m, read, spec, c) = try_lease-Acquired holder stamp now condition s h in
      rw (same ∙ read, held m spec) refl
    where
      held : (m : Lease) → SameSpec m (taken fresh holder stamp) → lease_available m later ≡ false
      held m spec = rw (spec.holder, spec.duration, spec.renewal, named) (ground (arith))

  -- A holder whose lease expired and was taken over by another still removes it when it releases,
  -- however it had acquired it: the other's lease is gone while the other relies on it.
  pub release-taken :
      (holder other : String) (stamp now later_stamp later : ℕ) (condition next : Option String)
      (s t : k.World) (l m : Lease)
      → (try_lease k holder stamp now s).1 ≡ acquired condition
      → k.get (try_lease k holder stamp now s).0 ≡ ok m
      → k.get t ≡ ok l
      → l.uid ≡ m.uid
      → (try_lease k other later_stamp later t).1 ≡ acquired next
      → k.get (release k condition (try_lease k other later_stamp later t).0) ≡ err not_found
  unfolding release
  release-taken holder other stamp now later_stamp later condition next s t l m h mine there same
        g =
      let (n, read, spec, c) = try_lease-Acquired holder stamp now condition s h in
      let (p, taken_read, kept) = taken_over other later_stamp later next l t there g in
      let here : n.uid ≡ m.uid = ap uid_of (sym read ∙ mine) in
      removed p taken_read condition n (kept ∙ same ∙ sym here) c
    where
      uid_of : Result Lease → String
      uid_of (ok n) = n.uid
      uid_of (err e) = ""

      removed :
          (p : Lease)
          → k.get (try_lease k other later_stamp later t).0 ≡ ok p
          → (condition : Option String) (n : Lease) → p.uid ≡ n.uid
          → Condition condition n
          → k.get (k.delete condition (try_lease k other later_stamp later t).0).0 ≡ err not_found
      removed p taken_read condition n e (inl none_given) =
          ap (λ d. k.get (k.delete d (try_lease k other later_stamp later t).0).0) none_given
          ∙ laws.delete_any p (try_lease k other later_stamp later t).0 taken_read
      removed p taken_read condition n e (inr own) =
          ap (λ d. k.get (k.delete d (try_lease k other later_stamp later t).0).0)
            (own ∙ ap some (sym e))
          ∙ laws.delete_own p (try_lease k other later_stamp later t).0 taken_read
