-- ===== src/Client/Target.antt =====
-- quish-client/src/main.rs: `parse_target` and `resolve_target`, over the settings of
-- quish-client/src/config.rs.
pub mod RoundTrip
mod Tests
use quish.Base.{
  ℕ, zero, suc, ◌+◌, ◌-◌, ◌*◌, ◌/◌, ◌%◌, ◌^◌, ◌≤◌, ◌<◌, min, ◌≡◌, refl, sym, ap, ◌∙◌, ◌≢◌, ◌↔◌, ◌⊎◌,
  inl, inr, Bool, true, false, not, ◌&&◌, ◌||◌, Option, none, some, List, [], ◌∷◌, ◌++◌, map,
  reverse, arith, ltb, leb, ◌==◌, if◌then◌else◌, ltb→lt, lt→ltb, ltb→ge, ge→ltb, leb→le, ==_iff,
  ==_refl, Bool-cases, Option-cases, ◌>>=◌, unwrap_or, is_some, length, get_elem?, get_or, take,
  drop, is_empty, any, all, retain, All, length-append, take-append_length, drop-append_length,
  take-append-drop, take-append_le, drop-append_le, length-take, length-drop,
}
use quish.Base.Text.{
  Bytes, codes, contains, strip_prefix, split_once, rsplit_once, bytes_eq, parse_u32,
}

-- `p.parse::<u16>()`.
unfoldable pub parse_u16 : Bytes → Option ℕ
parse_u16 s = parse_u32 s >>= λ n. if leb n 65535 then some n else none

-- `missing closing ']'`, `invalid port`, `unexpected text after ']'` and `missing host`.
pub data TargetError : Type 0 where
  missing_bracket invalid_port unexpected_text missing_host : TargetError

pub record RawTarget : Type 0 where
  pub user : Option Bytes
  pub host : Bytes
  pub port : Option ℕ
  pub path : Option Bytes

-- `?` on a result, whose error is on the left.
abbrev pub and_then : {A B : Type 0} → TargetError ⊎ A → (A → TargetError ⊎ B) → TargetError ⊎ B
and_then (inl e) f = inl e
and_then (inr a) f = f a

-- `Some(p.parse().context("invalid port")?)`.
abbrev pub some_port : Bytes → TargetError ⊎ Option ℕ
some_port p = elim (parse_u16 p) [ none ↦ inl invalid_port | some n ↦ inr (some n) ]

-- `[addr]` or `[addr]:port`, after the `[`.
pub bracketed : Bytes → TargetError ⊎ (Bytes × Option ℕ)
bracketed rest = elim (split_once b']' rest) [
  | none ↦ inl missing_bracket
  | some (addr, after) ↦ elim (strip_prefix (codes ":") after) [
    | some p ↦ and_then (some_port p) (λ port. inr (addr, port))
    | none ↦ if is_empty after then inr (addr, none) else inl unexpected_text
  ]
]

pub host_port : Bytes → TargetError ⊎ (Bytes × Option ℕ)
unfolding bracketed
host_port hostport = elim (strip_prefix (codes "[") hostport) [
  | some rest ↦ bracketed rest
  | none ↦ elim (rsplit_once b':' hostport) [
    | none ↦ inr (hostport, none)
    | some (h, p) ↦
        if contains b':' h
        then inr (hostport, none)
        else and_then (some_port p) (λ port. inr (h, port))
  ]
]

-- The user before the first `@`, and the path from the first `/` of the rest.
abbrev pub user_rest : Bytes → Option Bytes × Bytes
user_rest s = elim (split_once b'@' s) [ none ↦ (none, s) | some (u, r) ↦ (some u, r) ]

abbrev pub before_path : Bytes → Bytes × Option Bytes
before_path rest = elim (split_once b'/' rest) [
  | none ↦ (rest, none)
  | some (hp, p) ↦ (hp, some (b'/' ∷ p))
]

pub from_parts : Option Bytes → Bytes × Option Bytes → TargetError ⊎ RawTarget
unfolding host_port
from_parts user (hostport, path) = and_then (host_port hostport) (λ hp.
    if is_empty hp.0
    then inl missing_host
    else inr (record { user = user; host = hp.0; port = hp.1; path = path }))

pub from_user : Option Bytes × Bytes → TargetError ⊎ RawTarget
unfolding from_parts
from_user (user, rest) = from_parts user (before_path rest)

pub parse_target : Bytes → TargetError ⊎ RawTarget
unfolding from_user
parse_target s = from_user (user_rest s)

-- `Target`, `HostBlock` and `ClientConfig`; `hosts` is a map by name.
pub record Target : Type 0 where
  pub user : Bytes
  pub host : Bytes
  pub port : ℕ
  pub path : Bytes

pub record HostBlock : Type 0 where
  pub host : Bytes
  pub port : Option ℕ
  pub user : Option Bytes
  pub path : Option Bytes
  pub identity : Option Bytes
  pub local_forward : List Bytes
  pub remote_forward : List Bytes

pub record ClientConfig : Type 0 where
  pub identity : Option Bytes
  pub hosts : Bytes → Option HostBlock

pub record Resolved : Type 0 where
  pub target : Target
  pub identity : Option Bytes
  pub local_forward : List Bytes
  pub remote_forward : List Bytes

-- `a.or_else(|| b)`.
abbrev pub or_else : {A : Type 0} → Option A → Option A → Option A
or_else none b = b
or_else (some a) b = some a

abbrev pub default_path : Bytes
default_path = codes "/quish"

-- `whoami` is what the environment says, read when no user is given.
pub resolve_target : Bytes → RawTarget → ClientConfig → Resolved
resolve_target whoami raw cfg =
    let block = cfg.hosts raw.host in
    record {
      target = record {
        user = unwrap_or (or_else raw.user (block >>= λ b. b.user)) whoami;
        host = unwrap_or (block >>= λ b. some b.host) raw.host;
        port = unwrap_or (or_else raw.port (block >>= λ b. b.port)) 4433;
        path = unwrap_or (or_else raw.path (block >>= λ b. b.path)) default_path;
      };
      identity = or_else (block >>= λ b. b.identity) cfg.identity;
      local_forward = unwrap_or (block >>= λ b. some b.local_forward) [];
      remote_forward = unwrap_or (block >>= λ b. some b.remote_forward) [];
    }
