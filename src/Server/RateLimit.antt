-- ===== src/Server/RateLimit.antt =====
-- quish-server/src/ratelimit.rs: the cap on connections and the backoff, for each address.
-- Times and durations are nanoseconds. The mutex makes each method one step.
pub mod Slots
pub mod Backoff
mod Tests
use quish.Base.{
  ℕ, zero, suc, ◌+◌, ◌-◌, ◌*◌, ◌/◌, ◌%◌, ◌^◌, ◌≤◌, ◌<◌, min, ◌≡◌, refl, sym, ap, ◌∙◌, ◌≢◌, ◌↔◌, ◌⊎◌,
  inl, inr, Bool, true, false, not, ◌&&◌, ◌||◌, Option, none, some, List, [], ◌∷◌, ◌++◌, map,
  reverse, arith, ltb, leb, ◌==◌, if◌then◌else◌, ltb→lt, lt→ltb, ltb→ge, ge→ltb, leb→le, ==_iff,
  ==_refl, Bool-cases, Option-cases, ◌>>=◌, unwrap_or, is_some, length, get_elem?, get_or, take,
  drop, any, all, retain, All, length-append, take-append_length, drop-append_length,
  take-append-drop, take-append_le, drop-append_le, length-take, length-drop,
}

pub data IpAddr : Type 0 where
  v4 : ℕ → IpAddr
  v6 : ℕ → IpAddr

abbrev pub ip_eq : IpAddr → IpAddr → Bool
ip_eq (v4 a) (v4 b) = a == b
ip_eq (v4 a) (v6 b) = false
ip_eq (v6 a) (v4 b) = false
ip_eq (v6 a) (v6 b) = a == b

abbrev pub entry_ttl : ℕ
entry_ttl = 600 * 10 ^ 9

abbrev pub u32_max : ℕ
u32_max = 2 ^ 32 - 1

-- `Duration::MAX`.
abbrev pub duration_max : ℕ
duration_max = 2 ^ 64 * 10 ^ 9 - 1

pub record Entry : Type 0 where
  pub conns : ℕ
  pub fails : ℕ
  pub last_seen : ℕ

pub record RateLimiter : Type 0 where
  pub inner : IpAddr → Option Entry
  pub max_conns_per_ip : ℕ
  pub base_backoff : ℕ
  pub max_backoff : ℕ

pub new : ℕ → ℕ → ℕ → RateLimiter
new max_conns base max = record {
  inner = λ ip. none;
  max_conns_per_ip = max_conns;
  base_backoff = base;
  max_backoff = max;
}

pub default_limiter : RateLimiter
unfolding new
default_limiter = new 32 (200 * 10 ^ 6) (30 * 10 ^ 9)

abbrev pub new_entry : ℕ → Entry
new_entry now = record { conns = 0; fails = 0; last_seen = now }

abbrev pub put : IpAddr → Entry → (IpAddr → Option Entry) → IpAddr → Option Entry
put ip e m other = if ip_eq ip other then some e else m other

-- `map.retain(..)` of `admit`.
pub keep_fresh : ℕ → Option Entry → Option Entry
keep_fresh now none = none
keep_fresh now (some e) =
    if ltb 0 e.conns || ltb (now - e.last_seen) entry_ttl then some e else none

-- Whether a guard was given, and the limiter afterwards. A refusal leaves the entry that
-- `or_insert_with` may have made.
pub admit : IpAddr → ℕ → RateLimiter → Bool × RateLimiter
admit ip now l =
    let swept : IpAddr → Option Entry = λ other. keep_fresh now (l.inner other) in
    let entry = unwrap_or (swept ip) (new_entry now) in
    if leb l.max_conns_per_ip entry.conns
    then (false, record l { inner = put ip entry swept })
    else (
      true,
      record l { inner = put ip (record entry { conns = entry.conns + 1; last_seen = now }) swept },
    )

-- `self.base_backoff.saturating_mul(1u32 << shift).min(self.max_backoff)`.
pub delay_after : ℕ → RateLimiter → ℕ
delay_after fails l =
    if fails == 0
    then 0
    else min (min (l.base_backoff * 2 ^ min (fails - 1) 16) duration_max) l.max_backoff

abbrev pub fails_of : Option Entry → ℕ
fails_of none = 0
fails_of (some e) = e.fails

pub backoff : IpAddr → RateLimiter → ℕ
backoff ip l = delay_after (fails_of (l.inner ip)) l

pub record_failure : IpAddr → ℕ → RateLimiter → RateLimiter
record_failure ip now l =
    let entry = unwrap_or (l.inner ip) (new_entry now) in
    record l {
      inner =
          put ip (record entry { fails = min (entry.fails + 1) u32_max; last_seen = now }) l.inner;
    }

pub record_success : IpAddr → ℕ → RateLimiter → RateLimiter
record_success ip now l = elim (l.inner ip) [
  | none ↦ l
  | some entry ↦ record l { inner = put ip (record entry { fails = 0; last_seen = now }) l.inner }
]

-- `Drop for ConnGuard`.
pub drop_guard : IpAddr → ℕ → RateLimiter → RateLimiter
drop_guard ip now l = elim (l.inner ip) [
  | none ↦ l
  | some entry ↦ record l {
    inner = put ip (record entry { conns = entry.conns - 1; last_seen = now }) l.inner;
  }
]
