-- ===== src/Server/RateLimit/Slots.antt =====
-- The slots of an address against the guards that are alive.
use quish.Base.{
  ℕ, ◌+◌, ◌-◌, ◌≤◌, ◌<◌, ◌≡◌, refl, ap, ◌∙◌, ◌↔◌, inl, inr, true, Option, none, some, List, [], ◌∷◌,
  arith, ltb, if◌then◌else◌, Option-cases, unwrap_or,
}
use quish.Server.RateLimit.{
  IpAddr, v4, v6, ip_eq, Entry, RateLimiter, new_entry, keep_fresh, admit, record_failure,
  record_success, drop_guard,
}

-- What happens to a limiter. A guard is dropped once, so a drop without one does not occur.
pub data Event : Type 0 where
  admits : IpAddr → Event
  drops : IpAddr → Event
  fails : IpAddr → Event
  succeeds : IpAddr → Event

-- The limiter, and for each address the guards that were given and not dropped.
pub record World : Type 0 where
  pub limiter : RateLimiter
  pub guards : IpAddr → ℕ

abbrev pub count_at : IpAddr → ℕ → (IpAddr → ℕ) → IpAddr → ℕ
count_at ip n g other = if ip_eq ip other then n else g other

pub step : World → ℕ × Event → World
step w (now, admits ip) =
    let (given, l) = admit ip now w.limiter in
    record {
      limiter = l;
      guards = (if given then count_at ip (w.guards ip + 1) w.guards else w.guards);
    }
step w (now, drops ip) =
    if ltb 0 (w.guards ip)
    then record {
      limiter = drop_guard ip now w.limiter;
      guards = count_at ip (w.guards ip - 1) w.guards;
    }
    else w
step w (now, fails ip) = record w { limiter = record_failure ip now w.limiter }
step w (now, succeeds ip) = record w { limiter = record_success ip now w.limiter }

pub run : World → List (ℕ × Event) → World
run w [] = w
run w (e ∷ es) = run (step w e) es

abbrev pub conns_of : Option Entry → ℕ
conns_of none = 0
conns_of (some e) = e.conns

-- Every slot in use belongs to a guard, and no address has more of them than the cap.
abbrev pub Accounted : ℕ → World → Type 0
Accounted cap w =
    (w.limiter.max_conns_per_ip ≡ cap)
    × ((ip : IpAddr) → (conns_of (w.limiter.inner ip) ≡ w.guards ip) × (w.guards ip ≤ cap))

conns_of-keep_fresh : (now : ℕ) (o : Option Entry) → conns_of (keep_fresh now o) ≡ conns_of o
unfolding keep_fresh
conns_of-keep_fresh now none = refl
conns_of-keep_fresh now (some e) = ground arith

pub ip_eq→eq : (a b : IpAddr) → ip_eq a b ≡ true → a ≡ b
ip_eq→eq (v4 a) (v4 b) h = ap v4 (ground (arith, h))
ip_eq→eq (v4 a) (v6 b) h = absurd (cc)
ip_eq→eq (v6 a) (v4 b) h = absurd (cc)
ip_eq→eq (v6 a) (v6 b) h = ap v6 (ground (arith, h))

conns_of-unwrap_or :
    (o : Option Entry) (e : Entry) → e.conns ≡ 0 → (unwrap_or o e).conns ≡ conns_of o
conns_of-unwrap_or none e h = h
conns_of-unwrap_or (some x) e h = refl

-- One address: the slots in its entry are its guards, which are at most the cap.
abbrev Held : ℕ → World → IpAddr → Type 0
Held cap w ip = (conns_of (w.limiter.inner ip) ≡ w.guards ip) × (w.guards ip ≤ cap)

step-Held :
    (cap : ℕ) (w : World) (e : ℕ × Event) (other : IpAddr)
    → w.limiter.max_conns_per_ip ≡ cap
    → ((ip : IpAddr) → Held cap w ip)
    → Held cap (step w e) other
unfolding step admit record_failure record_success drop_guard
step-Held cap w (now, admits ip) other c h = ground (
  arith,
  h ip,
  h other,
  conns_of-keep_fresh now (w.limiter.inner ip),
  conns_of-keep_fresh now (w.limiter.inner other),
  conns_of-unwrap_or (keep_fresh now (w.limiter.inner ip)) (new_entry now) refl,
  ip_eq→eq ip other,
)
step-Held cap w (now, drops ip) other c h = elim (Option-cases (w.limiter.inner ip)) [
  | inl e ↦ ground (arith, e, h ip, h other, ip_eq→eq ip other)
  | inr (x, e) ↦ ground (arith, e, h ip, h other, ip_eq→eq ip other)
]
step-Held cap w (now, fails ip) other c h = ground (
  arith,
  h ip,
  h other,
  conns_of-unwrap_or (w.limiter.inner ip) (new_entry now) refl,
  ip_eq→eq ip other,
)
step-Held cap w (now, succeeds ip) other c h = elim (Option-cases (w.limiter.inner ip)) [
  | inl e ↦ ground (arith, e, h ip, h other, ip_eq→eq ip other)
  | inr (x, e) ↦ ground (arith, e, h ip, h other, ip_eq→eq ip other)
]

step-cap :
    (w : World) (e : ℕ × Event) → (step w e).limiter.max_conns_per_ip ≡ w.limiter.max_conns_per_ip
unfolding step admit record_failure record_success drop_guard
step-cap w (now, admits ip) = ground arith
step-cap w (now, drops ip) = ground arith
step-cap w (now, fails ip) = refl
step-cap w (now, succeeds ip) = ground arith

step-Accounted : (cap : ℕ) (w : World) (e : ℕ × Event) → Accounted cap w → Accounted cap (step w e)
step-Accounted cap w e (c, h) = (step-cap w e ∙ c, λ other. step-Held cap w e other c h)

-- From a limiter and guards that are accounted for, any sequence of connections, closed
-- connections, failures and successes keeps them so: the slots of an address are its guards alive,
-- and these never exceed the cap.
pub run-Accounted :
    (cap : ℕ) (w : World) (es : List (ℕ × Event)) → Accounted cap w → Accounted cap (run w es)
unfolding run
run-Accounted cap w [] h = h
run-Accounted cap w (e ∷ es) h = run-Accounted cap (step w e) es (step-Accounted cap w e h)

-- A connection is let in exactly if its address has fewer guards alive than the cap, however the
-- limiter got there.
pub admit_iff :
    (cap : ℕ) (w : World) (ip : IpAddr) (now : ℕ)
    → Accounted cap w
    → ((admit ip now w.limiter).0 ≡ true) ↔ (w.guards ip < cap)
unfolding admit
admit_iff cap w ip now (c, h) =
    let conns = conns_of-unwrap_or (keep_fresh now (w.limiter.inner ip)) (new_entry now) refl in
    let kept = conns_of-keep_fresh now (w.limiter.inner ip) in
    (λ k. ground (arith, h ip, conns, kept), λ k. ground (arith, h ip, conns, kept))
