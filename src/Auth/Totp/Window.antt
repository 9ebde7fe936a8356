-- ===== src/Auth/Totp/Window.antt =====
-- Which codes `verify_at` accepts.
use quish.Base.{
  ℕ, zero, suc, ◌+◌, ◌/◌, ◌≤◌, ◌<◌, ◌≡◌, ap, ◌↔◌, ◌⊎◌, inl, inr, true, arith, ◌==◌, Bool-cases,
  length, any,
}
use quish.Base.Text.{Bytes}
use quish.Auth.Totp.{
  Hmac, step_secs, code_range, hotp_offset, counter_bytes, counters, hotp, verify_at,
}

-- The four bytes that `hotp` reads lie within the 20 bytes of the code, so no index panics, and the
-- code has six digits at most.
pub hotp_bounds :
    (hmac : Hmac) (secret : Bytes) (counter : ℕ)
    → (hotp_offset (hmac.sha1 secret (counter_bytes counter)) + 3
        < length (hmac.sha1 secret (counter_bytes counter)))
      × (hotp hmac secret counter < code_range)
unfolding hotp hotp_offset
hotp_bounds hmac secret counter =
    (rw (hmac.sha1_length secret (counter_bytes counter)) (omega arith), omega arith)

abbrev Near : (ℕ → ℕ) → ℕ → ℕ → Type 0
Near f code n = (c : ℕ) × (c ≤ n + 1) × (n ≤ c + 1) × (f c ≡ code)

any_counters→Near :
    (f : ℕ → ℕ) (code n : ℕ) → any (λ c. f c == code) (counters n) ≡ true → Near f code n
unfolding counters
any_counters→Near f code zero h = elim (Bool-cases (f 0 == code)) [
  | inl e ↦ (0, omega arith, omega arith, ground arith)
  | inr e ↦ (1, omega arith, omega arith, ground arith)
]
any_counters→Near f code (suc n) h = elim (Bool-cases (f n == code)) [
  | inl e ↦ (n, omega arith, omega arith, ground arith)
  | inr e ↦ elim (Bool-cases (f (suc n) == code)) [
    | inl e' ↦ (suc n, omega arith, omega arith, ground arith)
    | inr e' ↦ (suc (suc n), omega arith, omega arith, ground arith)
  ]
]

near_cases : (c n : ℕ) → c ≤ suc n + 1 → suc n ≤ c + 1 → (c ≡ n) ⊎ ((c ≡ suc n) ⊎ (c ≡ suc (suc n)))
near_cases c n h k = grind arith

near_zero_cases : (c : ℕ) → c ≤ 1 → (c ≡ 0) ⊎ (c ≡ 1)
near_zero_cases c h = grind arith

Near→any_counters :
    (f : ℕ → ℕ) (code n : ℕ) → Near f code n → any (λ c. f c == code) (counters n) ≡ true
unfolding counters
Near→any_counters f code zero (c, hi, lo, e) = elim (near_zero_cases c (omega arith)) [
  | inl q ↦ ground (arith, ap f q)
  | inr q ↦ ground (arith, ap f q)
]
Near→any_counters f code (suc n) (c, hi, lo, e) = elim (near_cases c n hi lo) [
  | inl q ↦ ground (arith, ap f q)
  | inr (inl q) ↦ ground (arith, ap f q)
  | inr (inr q) ↦ ground (arith, ap f q)
]

-- A code is accepted exactly if it is the code of a step that is at most one away from now.
pub verify_at_iff :
    (hmac : Hmac) (secret : Bytes) (code unix_secs : ℕ)
    → (verify_at hmac secret code unix_secs ≡ true) ↔ (
        (c : ℕ) × (c ≤ unix_secs / step_secs + 1)
        × (unix_secs / step_secs ≤ c + 1)
        × (hotp hmac secret c ≡ code))
unfolding verify_at
verify_at_iff hmac secret code unix_secs =
    (any_counters→Near (hotp hmac secret) code _, Near→any_counters (hotp hmac secret) code _)
