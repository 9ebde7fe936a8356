-- ===== src/Client/ForwardSpec.antt =====
-- quish-client/src/main.rs: `split_forward_tokens`, `parse_forward` and `parse_remote_forward`.
pub mod Tokens
pub mod Policy
mod Tests
use quish.Base.{
  ℕ, zero, suc, ◌+◌, ◌-◌, ◌*◌, ◌/◌, ◌%◌, ◌^◌, ◌≤◌, ◌<◌, min, ◌≡◌, refl, sym, ap, ◌∙◌, ◌≢◌, ◌↔◌, ◌⊎◌,
  inl, inr, Bool, true, false, not, ◌&&◌, ◌||◌, Option, none, some, List, [], ◌∷◌, ◌++◌, map,
  reverse, arith, ltb, leb, ◌==◌, if◌then◌else◌, ltb→lt, lt→ltb, ltb→ge, ge→ltb, leb→le, ==_iff,
  ==_refl, Bool-cases, Option-cases, ◌>>=◌, unwrap_or, is_some, length, get_elem?, get_or, take,
  drop, is_empty, any, all, retain, All, length-append, take-append_length, drop-append_length,
  take-append-drop, take-append_le, drop-append_le, length-take, length-drop,
}
use quish.Base.Text.{Bytes, codes, strip_prefix, split_once}
use quish.Server.RateLimit.{IpAddr, v4}
use quish.Session.Forward.{is_loopback}
use quish.Client.Target.{parse_u16}

-- The errors, in the words of their texts; `no_fuel` is none of them.
pub data ForwardError : Type 0 where
  missing_bracket unexpected_text wrong_shape invalid_local_port invalid_remote_port : ForwardError
  missing_host invalid_bind not_loopback no_fuel : ForwardError

-- `?`.
abbrev pub and_then : {A B : Type 0} → ForwardError ⊎ A → (A → ForwardError ⊎ B) → ForwardError ⊎ B
and_then (inl e) f = inl e
and_then (inr a) f = f a

-- `opt.with_context(|| ..)?`.
abbrev pub ok_or : {A : Type 0} → ForwardError → Option A → ForwardError ⊎ A
ok_or e none = inl e
ok_or e (some a) = inr a

abbrev pub push : Bytes → ForwardError ⊎ List Bytes → ForwardError ⊎ List Bytes
push token (inl e) = inl e
push token (inr tokens) = inr (token ∷ tokens)

-- The loop. Each round takes a `:` at least.
pub split_loop : ℕ → Bytes → ForwardError ⊎ List Bytes
split_loop zero rest = inl no_fuel
split_loop (suc fuel) rest = elim (strip_prefix (codes "[") rest) [
  | some inner ↦ elim (split_once b']' inner) [
    | none ↦ inl missing_bracket
    | some (addr, after) ↦ elim (strip_prefix (codes ":") after) [
      | some r ↦ push addr (split_loop fuel r)
      | none ↦ if is_empty after then inr (addr ∷ []) else inl unexpected_text
    ]
  ]
  | none ↦ elim (split_once b':' rest) [
    | some (token, r) ↦ push token (split_loop fuel r)
    | none ↦ inr (rest ∷ [])
  ]
]

pub split_forward_tokens : Bytes → ForwardError ⊎ List Bytes
unfolding split_loop
split_forward_tokens s = split_loop (suc (length s)) s

-- The four tokens, of which the first may be missing.
pub four_tokens : List Bytes → ForwardError ⊎ (Option Bytes × Bytes × Bytes × Bytes)
four_tokens [] = inl wrong_shape
four_tokens (a ∷ []) = inl wrong_shape
four_tokens (a ∷ b ∷ []) = inl wrong_shape
four_tokens (a ∷ b ∷ c ∷ []) = inr (none, a, b, c)
four_tokens (a ∷ b ∷ c ∷ d ∷ []) = inr (some a, b, c, d)
four_tokens (a ∷ b ∷ c ∷ d ∷ e ∷ es) = inl wrong_shape

pub record ForwardSpec : Type 0 where
  pub bind : IpAddr
  pub lport : ℕ
  pub rhost : Bytes
  pub rport : ℕ

pub record RemoteForwardSpec : Type 0 where
  pub bind : IpAddr
  pub rport : ℕ
  pub lhost : Bytes
  pub lport : ℕ

-- `Ipv4Addr::LOCALHOST`.
abbrev pub localhost : IpAddr
localhost = v4 (127 * 2 ^ 24 + 1)

-- `parse_ip` is `str::parse::<IpAddr>`.
module _ (parse_ip : Bytes → Option IpAddr) where
  abbrev pub bind_address : Option Bytes → ForwardError ⊎ IpAddr
  bind_address none = inr localhost
  bind_address (some b) = ok_or invalid_bind (parse_ip b)

  pub loopback_bind : Option Bytes → ForwardError ⊎ IpAddr
  loopback_bind bind_tok =
      and_then (bind_address bind_tok)
        (λ bind. if not (is_loopback bind) then inl not_loopback else inr bind)

  pub parse_forward : Bytes → ForwardError ⊎ ForwardSpec
  unfolding split_forward_tokens four_tokens loopback_bind
  parse_forward s = and_then (split_forward_tokens s) (λ tokens. and_then (four_tokens tokens) (λ t.
      and_then (ok_or invalid_local_port (parse_u16 t.1)) (λ lport.
        and_then (ok_or invalid_remote_port (parse_u16 t.3)) (λ rport.
          if is_empty t.2
          then inl missing_host
          else and_then (loopback_bind t.0)
              (λ bind. inr (record { bind = bind; lport = lport; rhost = t.2; rport = rport }))))))

  pub parse_remote_forward : Bytes → ForwardError ⊎ RemoteForwardSpec
  unfolding split_forward_tokens four_tokens loopback_bind
  parse_remote_forward s = and_then (split_forward_tokens s) (λ tokens.
      and_then (four_tokens tokens) (λ t.
        and_then (ok_or invalid_remote_port (parse_u16 t.1)) (λ rport.
          and_then (ok_or invalid_local_port (parse_u16 t.3)) (λ lport.
            if is_empty t.2
            then inl missing_host
            else and_then (loopback_bind t.0) (λ bind.
              inr (record { bind = bind; rport = rport; lhost = t.2; lport = lport }))))))
