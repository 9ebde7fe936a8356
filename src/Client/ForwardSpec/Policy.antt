-- ===== src/Client/ForwardSpec/Policy.antt =====
-- quish-client/src/main.rs: what `parse_forward` and `parse_remote_forward` let through.
use quish.Base.{
  ℕ, ◌≤◌, ◌≡◌, refl, sym, ap, ◌∙◌, ◌⊎◌, inl, inr, Bool, true, false, not, Option, none, some, arith,
  leb, if◌then◌else◌, Bool-cases, Option-cases, is_empty,
}
use mathlib.Core.Option.{some-injective}
use mathlib.Core.Path.{subst}
use quish.Base.Text.{Bytes, parse_u32}
use quish.Server.RateLimit.{IpAddr}
use quish.Session.Forward.{is_loopback}
use quish.Client.Target.{parse_u16}
use quish.Client.ForwardSpec.{
  ForwardError, missing_host, not_loopback, invalid_local_port, invalid_remote_port, and_then,
  ok_or, four_tokens, split_forward_tokens, ForwardSpec, bind_address, loopback_bind, parse_forward,
}

and_then_inv :
    {A B : Type 0} (r : ForwardError ⊎ A) (f : A → ForwardError ⊎ B) (b : B)
    → and_then r f ≡ inr b
    → (a : A) × (r ≡ inr a) × (f a ≡ inr b)
and_then_inv (inl e) f b h = absurd (cc)
and_then_inv (inr a) f b h = (a, refl, h)

right : {A : Type 0} → ForwardError ⊎ A → Option A
right (inl e) = none
right (inr a) = some a

ok_or_inv : {A : Type 0} (e : ForwardError) (o : Option A) (a : A) → ok_or e o ≡ inr a → o ≡ some a
unfolding right
ok_or_inv e none a h = absurd (cc)
ok_or_inv e (some b) a h = ap right h

bound_kept : (m n : ℕ) → (if leb m 65535 then some m else none) ≡ some n → n ≤ 65535
bound_kept m n h = ground arith

parse_u16_bound : (s : Bytes) (n : ℕ) → parse_u16 s ≡ some n → n ≤ 65535
unfolding parse_u16
parse_u16_bound s n h = elim (Option-cases (parse_u32 s)) [
  | inl e ↦ absurd (cc (rw (parse_u16, e) at h))
  | inr (m, e) ↦ bound_kept m n (rw (parse_u16, e) at h)
]

checked :
    (bind ip : IpAddr) (r : ForwardError ⊎ IpAddr)
    → (r ≡ (if not (is_loopback bind) then inl not_loopback else inr bind))
    → r ≡ inr ip
    → is_loopback ip ≡ true
unfolding right
checked bind ip r e h = elim (Bool-cases (is_loopback bind)) [
  | inl l ↦
      subst (λ a. is_loopback a ≡ true) (some-injective bind ip (ap right (sym (rw l at e) ∙ h))) l
  | inr l ↦ absurd (cc (sym (rw l at e) ∙ h))
]

loopback_bind_inv :
    (parse_ip : Bytes → Option IpAddr) (tok : Option Bytes) (ip : IpAddr)
    → loopback_bind parse_ip tok ≡ inr ip
    → is_loopback ip ≡ true
unfolding loopback_bind
loopback_bind_inv parse_ip tok ip h =
    let (bind, _, e) = and_then_inv (bind_address parse_ip tok) _ ip h in checked bind ip _ refl e

-- The last steps of both.
host_and_bind :
    {S : Type 0} (b : Bool) (r : ForwardError ⊎ IpAddr) (f : IpAddr → S) (spec : S)
    → (if b then inl missing_host else and_then r (λ bind. inr (f bind))) ≡ inr spec
    → (b ≡ false) × (ip : IpAddr) × (r ≡ inr ip) × (f ip ≡ spec)
unfolding right
host_and_bind true r f spec h = absurd (cc)
host_and_bind false r f spec h =
    let (ip, e, g) = and_then_inv r (λ bind. inr (f bind)) spec h in
    (refl, ip, e, some-injective (f ip) spec (ap right g))

-- A loopback address, ports of 16 bits and a host.
abbrev pub IsPermitted : IpAddr → ℕ → Bytes → ℕ → Type 0
IsPermitted bind lport host rport =
    (is_loopback bind ≡ true) × (lport ≤ 65535) × (is_empty host ≡ false) × (rport ≤ 65535)

forward-IsPermitted :
    (parse_ip : Bytes → Option IpAddr) (t : Option Bytes × Bytes × Bytes × Bytes) (lport rport : ℕ)
    (spec : ForwardSpec)
    → lport ≤ 65535
    → rport ≤ 65535
    → (if is_empty t.2
        then inl missing_host
        else and_then
            (loopback_bind parse_ip t.0)
            (λ bind. inr (record { bind = bind; lport = lport; rhost = t.2; rport = rport })))
      ≡ inr spec
    → IsPermitted spec.bind spec.lport spec.rhost spec.rport
forward-IsPermitted parse_ip t lport rport spec l r h =
    let (full, ip, e, same) =
      host_and_bind (is_empty t.2) (loopback_bind parse_ip t.0)
        (λ bind. record { bind = bind; lport = lport; rhost = t.2; rport = rport }) spec h in
    subst (λ (s : ForwardSpec). IsPermitted s.bind s.lport s.rhost s.rport) same
      (loopback_bind_inv parse_ip t.0 ip e, l, full, r)

-- A spec of `-L` that is accepted binds a loopback address, has ports of 16 bits and names a host,
-- whatever the text.
pub parse_forward-IsPermitted :
    (parse_ip : Bytes → Option IpAddr) (s : Bytes) (spec : ForwardSpec)
    → parse_forward parse_ip s ≡ inr spec
    → IsPermitted spec.bind spec.lport spec.rhost spec.rport
unfolding parse_forward
parse_forward-IsPermitted parse_ip s spec h =
    let (tokens, _, h1) = and_then_inv (split_forward_tokens s) _ spec h in
    let (t, _, h2) = and_then_inv (four_tokens tokens) _ spec h1 in
    let (lport, l, h3) = and_then_inv (ok_or invalid_local_port (parse_u16 t.1)) _ spec h2 in
    let (rport, r, h4) = and_then_inv (ok_or invalid_remote_port (parse_u16 t.3)) _ spec h3 in
    forward-IsPermitted parse_ip t lport rport spec
      (parse_u16_bound t.1 lport (ok_or_inv invalid_local_port (parse_u16 t.1) lport l))
      (parse_u16_bound t.3 rport (ok_or_inv invalid_remote_port (parse_u16 t.3) rport r)) h4
