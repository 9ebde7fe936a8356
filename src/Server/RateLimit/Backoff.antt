-- ===== src/Server/RateLimit/Backoff.antt =====
-- The backoff before an attempt: how it grows with the failures of an address.
use quish.Base.{ℕ, ◌+◌, ◌-◌, ◌^◌, ◌≤◌, min, ◌≡◌, inl, inr, arith, if◌then◌else◌, Option-cases}
use native.Mathlib.Nat.{pow-le-pow_right, mul-le-mul_left}
use quish.Server.RateLimit.Slots.{ip_eq→eq}
use quish.Server.RateLimit.{
  IpAddr, ip_eq, RateLimiter, u32_max, delay_after, backoff, fails_of, record_failure,
  record_success,
}

pow_mono : (m n : ℕ) → m ≤ n → 2 ^ m ≤ 2 ^ n
pow_mono m n h = pow-le-pow_right (omega arith) h

-- More failures never mean a shorter delay, and no delay is above the maximum.
pub delay_after_mono :
    (l : RateLimiter) (m n : ℕ)
    → m ≤ n
    → (delay_after m l ≤ delay_after n l) × (delay_after n l ≤ l.max_backoff)
unfolding delay_after
delay_after_mono l m n h =
    let h' : 2 ^ min (m - 1) 16 ≤ 2 ^ min (n - 1) 16 = pow_mono _ _ (omega arith) in
    ground (arith, mul-le-mul_left l.base_backoff h')

-- A failure never shortens the backoff of any address, and a success clears that of its address
-- alone.
pub record_failure-backoff :
    (l : RateLimiter) (ip other : IpAddr) (now : ℕ)
    → fails_of (l.inner ip) ≤ u32_max
    → (backoff other l ≤ backoff other (record_failure ip now l))
      × (backoff other (record_success ip now l) ≡ (if ip_eq ip other then 0 else backoff other l))
unfolding backoff record_failure record_success delay_after
record_failure-backoff l ip other now h =
    let same = ip_eq→eq ip other in
    let mono =
      delay_after_mono l (fails_of (l.inner other)) (min (fails_of (l.inner other) + 1) u32_max) in
    elim (Option-cases (l.inner ip)) [
      | inl e ↦ (ground (arith, e, same, mono), ground (arith, e, same))
      | inr (x, e) ↦ (ground (arith, e, same, mono), ground (arith, e, same))
    ]
