-- ===== src/Auth/Registry.antt =====
-- quish-auth/src/lib.rs: `UserPolicy`, `Registry` and `DevInsecureBackend`.
pub mod Policy
pub mod Verdicts
mod Tests
use quish.Base.{
  ℕ, zero, suc, ◌+◌, ◌-◌, ◌*◌, ◌/◌, ◌%◌, ◌^◌, ◌≤◌, ◌<◌, min, ◌≡◌, refl, sym, ap, ◌∙◌, ◌≢◌, ◌↔◌, ◌⊎◌,
  inl, inr, Bool, true, false, not, ◌&&◌, ◌||◌, Option, none, some, List, [], ◌∷◌, ◌++◌, map,
  reverse, arith, ltb, leb, ◌==◌, if◌then◌else◌, ltb→lt, lt→ltb, ltb→ge, ge→ltb, leb→le, ==_iff,
  ==_refl, Bool-cases, Option-cases, ◌>>=◌, unwrap_or, is_some, length, get_elem?, get_or, take,
  drop, is_empty, any, all, retain, All, length-append, take-append_length, drop-append_length,
  take-append-drop, take-append_le, drop-append_le, length-take, length-drop,
}
use quish.Base.Text.{Bytes, bytes_eq}
use quish.Proto.Frame.{Codec}
use quish.Auth.Types.{
  Base64, Token, Credentials, password, signed_token, jwt, ConnInfo, Verdict, allow, challenge,
  deny, AuthBackend, is_password, is_allow,
}
use quish.Auth.Header.{parse_authorization}

pub record UserPolicy : Type 0 where
  pub allow_users : List Bytes
  pub deny_users : List Bytes

pub permits : UserPolicy → Bytes → Bool
permits p user =
    if any (λ u. bytes_eq u user) p.deny_users
    then false
    else is_empty p.allow_users || any (λ u. bytes_eq u user) p.allow_users

pub record Registry : Type 0 where
  pub backends : List AuthBackend
  pub fail_delay : ℕ
  pub policy : UserPolicy

pub dispatch : List AuthBackend → Credentials → ConnInfo → Verdict
dispatch [] creds conn = deny
dispatch (b ∷ bs) creds conn =
    if b.supports creds then b.authenticate conn creds else dispatch bs creds conn

-- The second `match` of `verdict`.
pub apply_policy : UserPolicy → Verdict → Verdict
apply_policy p (allow user) = if not (permits p user) then deny else allow user
apply_policy p (challenge s ps) = challenge s ps
apply_policy p deny = deny

module _ (base64 : Base64) (postcard : Codec Token) where
  pub verdict : Registry → Option Bytes → ConnInfo → Verdict
  unfolding apply_policy
  verdict reg authorization conn =
      apply_policy reg.policy (elim (parse_authorization base64 postcard authorization) [
        | some creds ↦ dispatch reg.backends creds conn
        | none ↦ deny
      ])

  -- The verdict and the time at which it is returned. `started` and `finished` are the clock before
  -- and after `verdict`; `sleep_until` a time that has passed returns at once.
  pub authenticate : Registry → Option Bytes → ConnInfo → ℕ → ℕ → Verdict × ℕ
  unfolding verdict
  authenticate reg authorization conn started finished =
      let v = verdict reg authorization conn in
      if not (is_allow v)
      then (
        v,
        (if ltb finished (started + reg.fail_delay) then started + reg.fail_delay else finished),
      )
      else (v, finished)

pub dev_insecure_backend : Bytes → AuthBackend
dev_insecure_backend user = record {
  supports = is_password;
  authenticate = λ conn creds. elim creds [
    | password username pass ↦ if bytes_eq username user then allow user else deny
    | signed_token t ↦ deny
    | jwt t ↦ deny
  ];
}
