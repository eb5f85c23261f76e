-- ===== src/Dashboard/Forms/Laws.antt =====
-- The forms and the durations that are accepted.
use opensandbox_aks_governan.Base.{
  ℕ, ◌≤◌, ◌*◌, ℤ, pos, negsuc, times64, Option, none, some, ◌≡◌, refl, arith, String, true,
  Bool-cases, inl, inr, ok,
}
use opensandbox_aks_governan.Api.{minute, hour}
use opensandbox_aks_governan.Dashboard.Forms.{
  atoi, duration_allowed, duration_of, parse_duration_minutes,
}

-- A duration from one minute to eight hours.
pub record IsDuration (d : ℕ) : Type 0 where
  pub least : minute ≤ d
  pub most : d ≤ 8 * hour

allowed-IsDuration :
    (duration : ℤ) → duration_allowed duration ≡ true → (d : ℕ) × (duration ≡ pos d) × IsDuration d
allowed-IsDuration (pos d) h = (d, refl, record { least = ground (arith); most = ground (arith) })
allowed-IsDuration (negsuc d) h = absurd (cc)

pub parse_duration_minutes-IsDuration :
    (value : String) (duration : ℤ)
    → parse_duration_minutes value ≡ ok duration
    → (d : ℕ) × (duration ≡ pos d) × IsDuration d
unfolding parse_duration_minutes
parse_duration_minutes-IsDuration value duration h = from (atoi value) h
  where
    from :
        (minutes : Option ℤ)
        → duration_of minutes ≡ ok duration
        → (d : ℕ) × (duration ≡ pos d) × IsDuration d
    from none k = absurd (cc)
    from (some minutes) k = elim (Bool-cases (duration_allowed (times64 minutes minute))) [
      | inl good ↦
          let (d, same, bounds) = allowed-IsDuration (times64 minutes minute) good in
          (d, ground (arith), bounds)
      | inr bad ↦ absurd (cc (rw bad at k))
    ]
