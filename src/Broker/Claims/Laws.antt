-- ===== src/Broker/Claims/Laws.antt =====
-- Lifetimes of credentials as 64-bit integers, and task IDs.
use opensandbox_aks_governan.Base.{
  ℕ, pos, negsuc, suc, true, false, ◌≡◌, refl, ◌≤◌, ◌<◌, ◌*◌, ◌^◌, ◌%◌, ◌↔◌, arith, times64, ltb,
  ltb-false_of_le, ◌-◌,
}
use opensandbox_aks_governan.Api.{second}
use opensandbox_aks_governan.Broker.Claims.{ttl_of, ttl_allowed}

small_product : (n : ℕ) → n < 2 ^ 33 → (n * second) % 2 ^ 64 ≡ n * second
small_product n h = omega (arith)

pub ttl_of-small : (n : ℕ) → n < 2 ^ 33 → ttl_of (pos n) ≡ pos (n * second)
unfolding times64
ttl_of-small n h = rw (small_product n h) (ground (arith))

ttl_of-negative : (n : ℕ) → n < 2 ^ 33 → (m : ℕ) × (ttl_of (negsuc n) ≡ negsuc m)
unfolding times64
ttl_of-negative n h =
    let high : ltb ((2 ^ 64 - (suc n * second) % 2 ^ 64) % 2 ^ 64) (2 ^ 63) ≡ false =
      ltb-false_of_le _ _ (omega (arith)) in
    (2 ^ 64 - 1 - (2 ^ 64 - (suc n * second) % 2 ^ 64) % 2 ^ 64, rw high refl)

-- For every number of seconds below 2^33 in size, a lifetime is allowed exactly when it is between
-- 60 and 900 seconds, and none that is negative is.
pub ttl_allowed_iff :
    (n : ℕ)
    → n < 2 ^ 33
    → ((ttl_allowed (ttl_of (pos n)) ≡ true) ↔ ((60 ≤ n) × (n ≤ 900)))
      × (ttl_allowed (ttl_of (negsuc n)) ≡ false)
ttl_allowed_iff n h =
    let (m, e) = ttl_of-negative n h in
    (rw (ttl_of-small n h) (λ k. ground (arith), λ k. ground (arith)), rw e refl)
