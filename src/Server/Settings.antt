-- ===== src/Server/Settings.antt =====
-- quish-server/src/config.rs, and the merge of the flags with it in quish-server/src/main.rs. clap
-- and toml are outside: the flags and the file are given as their records.
pub mod Merged
mod Tests
use quish.Base.{
  ℕ, zero, suc, ◌+◌, ◌-◌, ◌*◌, ◌/◌, ◌%◌, ◌^◌, ◌≤◌, ◌<◌, min, ◌≡◌, refl, sym, ap, ◌∙◌, ◌≢◌, ◌↔◌, ◌⊎◌,
  inl, inr, Bool, true, false, not, ◌&&◌, ◌||◌, Option, none, some, List, [], ◌∷◌, ◌++◌, map,
  reverse, arith, ltb, leb, ◌==◌, if◌then◌else◌, ltb→lt, lt→ltb, ltb→ge, ge→ltb, leb→le, ==_iff,
  ==_refl, Bool-cases, Option-cases, ◌>>=◌, unwrap_or, is_some, length, get_elem?, get_or, take,
  drop, is_empty, any, all, retain, All, length-append, take-append_length, drop-append_length,
  take-append-drop, take-append_le, drop-append_le, length-take, length-drop,
}
use quish.Base.Text.{Bytes, codes}
use quish.Auth.Registry.{UserPolicy}
use quish.Auth.Oidc.{OidcConfig}
use quish.Server.RateLimit.{v6}
use quish.Session.Forward.{SocketAddr}

-- The `[oidc]` table.
pub record OidcTable : Type 0 where
  pub issuer : Bytes
  pub audience : Bytes
  pub jwks_file : Bytes
  pub user_claim : Option Bytes
  pub max_token_age_secs : Option ℕ

pub record FileConfig : Type 0 where
  pub listen : Option SocketAddr
  pub path : Option Bytes
  pub privsep_user : Option Bytes
  pub privsep_dir : Option Bytes
  pub host_key : Option Bytes
  pub max_auth_fails : Option ℕ
  pub allow_forward : Option Bool
  pub allow_remote_forward : Option Bool
  pub no_seccomp : Option Bool
  pub totp : Option Bool
  pub allow_users : Option (List Bytes)
  pub deny_users : Option (List Bytes)
  pub oidc : Option OidcTable

-- The flags that are merged with the file.
pub record Args : Type 0 where
  pub listen : Option SocketAddr
  pub path : Option Bytes
  pub dev_insecure_user : Option Bytes
  pub totp : Bool
  pub privsep_dir : Option Bytes
  pub privsep_user : Option Bytes
  pub host_key : Option Bytes
  pub max_auth_fails : Option ℕ
  pub allow_forward : Bool
  pub allow_remote_forward : Bool
  pub no_seccomp : Bool
  pub allow_users : List Bytes
  pub deny_users : List Bytes

-- `monitor::Config`.
pub record Config : Type 0 where
  pub listen : SocketAddr
  pub path : Bytes
  pub chroot_dir : Bytes
  pub worker_user : Bytes
  pub host_key : Option Bytes
  pub max_auth_fails : ℕ
  pub allow_forward : Bool
  pub allow_remote_forward : Bool
  pub no_seccomp : Bool
  pub totp : Bool
  pub policy : UserPolicy
  pub oidc : Option OidcConfig

pub into_backend : OidcTable → OidcConfig
into_backend t = record {
  issuer = t.issuer;
  audience = t.audience;
  jwks_file = t.jwks_file;
  user_claim = unwrap_or t.user_claim (codes "preferred_username");
  max_token_age_secs = unwrap_or t.max_token_age_secs 300;
}

-- `flag.or(file).unwrap_or(default)`.
abbrev pub first_of : {A : Type 0} → Option A → Option A → A → A
first_of none file default = unwrap_or file default
first_of (some a) file default = a

abbrev or_else : {A : Type 0} → Option A → Option A → Option A
or_else none b = b
or_else (some a) b = some a

-- A list of users: the flags', or the file's if there is no flag.
abbrev pub users : List Bytes → Option (List Bytes) → List Bytes
users flags file = if is_empty flags then unwrap_or file [] else flags

pub merge : Args → FileConfig → Config
unfolding into_backend
merge args file = record {
  listen = first_of args.listen file.listen (record { ip = v6 0; port = 4433 });
  path = first_of args.path file.path (codes "/quish");
  chroot_dir = first_of args.privsep_dir file.privsep_dir (codes "/run/quishd");
  worker_user = first_of args.privsep_user file.privsep_user (codes "quish");
  host_key = or_else args.host_key file.host_key;
  max_auth_fails = first_of args.max_auth_fails file.max_auth_fails 6;
  allow_forward = args.allow_forward || unwrap_or file.allow_forward false;
  allow_remote_forward = args.allow_remote_forward || unwrap_or file.allow_remote_forward false;
  no_seccomp = args.no_seccomp || unwrap_or file.no_seccomp false;
  totp = args.totp || unwrap_or file.totp false;
  policy = record {
    allow_users = users args.allow_users file.allow_users;
    deny_users = users args.deny_users file.deny_users;
  };
  oidc = file.oidc >>= λ t. some (into_backend t);
}
