-- ===== src/Server/SignThrottle.antt =====
-- quish-server/src/monitor.rs: `SignThrottle`, the token bucket in front of the host key.
-- Times are nanoseconds on the monotonic clock, which does not come near its end, so that
-- `checked_mul` and `checked_add` give a value.
pub mod Rate
mod Tests
use quish.Base.{
  ℕ, zero, suc, ◌+◌, ◌-◌, ◌*◌, ◌/◌, ◌%◌, ◌^◌, ◌≤◌, ◌<◌, min, ◌≡◌, refl, sym, ap, ◌∙◌, ◌≢◌, ◌↔◌, ◌⊎◌,
  inl, inr, Bool, true, false, not, ◌&&◌, ◌||◌, Option, none, some, List, [], ◌∷◌, ◌++◌, map,
  reverse, arith, ltb, leb, ◌==◌, if◌then◌else◌, ltb→lt, lt→ltb, ltb→ge, ge→ltb, leb→le, ==_iff,
  ==_refl, Bool-cases, Option-cases, ◌>>=◌, unwrap_or, is_some, length, get_elem?, get_or, take,
  drop, any, all, retain, All, length-append, take-append_length, drop-append_length,
  take-append-drop, take-append_le, drop-append_le, length-take, length-drop,
}

abbrev pub sign_burst : ℕ
sign_burst = 32

abbrev pub sign_refill : ℕ
sign_refill = 500 * 10 ^ 6

abbrev pub u32_max : ℕ
u32_max = 2 ^ 32 - 1

pub record SignThrottle : Type 0 where
  pub tokens : ℕ
  pub last : ℕ

unfoldable pub new : ℕ → SignThrottle
new now = record { tokens = sign_burst; last = now }

-- The refill: whole tokens for the time since `last`, which moves on by the intervals counted.
-- `u32::try_from(..).unwrap_or(u32::MAX)` and `saturating_add` stop at the largest `u32`.
unfoldable pub refill : SignThrottle → ℕ → SignThrottle
refill t now =
    let gained = min ((now - t.last) / sign_refill) u32_max in
    if ltb 0 gained
    then record {
      tokens = min (min (t.tokens + gained) u32_max) sign_burst;
      last = t.last + sign_refill * gained;
    }
    else t

unfoldable pub spend : SignThrottle → Bool × SignThrottle
spend t = if ltb 0 t.tokens then (true, record t { tokens = t.tokens - 1 }) else (false, t)

unfoldable pub allow_at : SignThrottle → ℕ → Bool × SignThrottle
unfolding refill spend
allow_at t now = spend (refill t now)

-- The requests of a signing thread at these times: how many were let through.
pub served : SignThrottle → List ℕ → ℕ
served t [] = 0
served t (now ∷ times) =
    let (allowed, t') = allow_at t now in if allowed then suc (served t' times) else served t' times
