-- ===== src/Auth/Oidc.antt =====
-- quish-auth/src/oidc.rs: `verifier_factory`, and `OidcBackend` with its configuration.
-- jsonwebtoken, serde_json and ed25519-dalek are parameters.
pub mod Allowed
mod Tests
use quish.Base.{
  ℕ, zero, suc, ◌+◌, ◌-◌, ◌*◌, ◌/◌, ◌%◌, ◌^◌, ◌≤◌, ◌<◌, min, ◌≡◌, refl, sym, ap, ◌∙◌, ◌≢◌, ◌↔◌, ◌⊎◌,
  inl, inr, Bool, true, false, not, ◌&&◌, ◌||◌, Option, none, some, List, [], ◌∷◌, ◌++◌, map,
  reverse, arith, ltb, leb, ◌==◌, if◌then◌else◌, ltb→lt, lt→ltb, ltb→ge, ge→ltb, leb→le, ==_iff,
  ==_refl, Bool-cases, Option-cases, ◌>>=◌, unwrap_or, is_some, length, get_elem?, get_or, take,
  drop, is_empty, any, all, retain, All, length-append, take-append_length, drop-append_length,
  take-append-drop, take-append_le, drop-append_le, length-take, length-drop,
}
use quish.Base.Text.{Bytes, codes, bytes_eq}
use quish.Auth.Types.{Credentials, password, signed_token, jwt, Verdict, allow, deny}

pub data Algorithm : Type 0 where
  eddsa hs256 rs256 es256 : Algorithm

abbrev pub is_eddsa : Algorithm → Bool
is_eddsa eddsa = true
is_eddsa hs256 = false
is_eddsa rs256 = false
is_eddsa es256 = false

-- The key that verifies, given `VerifyingKey::from_bytes`; `none` is an error of either kind.
pub verifier_factory : (Bytes → Option Bytes) → Algorithm → Bytes → Option Bytes
verifier_factory from_bytes alg key =
    if not (is_eddsa alg)
    then none
    else if ltb (length key) 32
    then none
    else from_bytes (take 32 key)

pub record OidcConfig : Type 0 where
  pub issuer : Bytes
  pub audience : Bytes
  pub jwks_file : Bytes
  pub user_claim : Bytes
  pub max_token_age_secs : ℕ

-- A JSON value, as far as `as_u64` and `as_str` tell them apart.
pub data Value : Type 0 where
  number : ℕ → Value
  string : Bytes → Value
  other : Value

abbrev pub as_u64 : Value → Option ℕ
as_u64 (number n) = some n
as_u64 (string s) = none
as_u64 other = none

abbrev pub as_str : Value → Option Bytes
as_str (number n) = none
as_str (string s) = some s
as_str other = none

abbrev pub Claims : Type 0
Claims = Bytes → Option Value

pub record Jwk : Type 0 where
  pub kid : Option Bytes
  pub key : Bytes

pub record Validation : Type 0 where
  pub algorithms : List Algorithm
  pub issuer : Bytes
  pub audience : Bytes
  pub validate_exp : Bool
  pub validate_nbf : Bool
  pub required_spec_claims : List Bytes

-- The files and the crates: `serde_json::from_slice` on a JWKS document, `decode_header`, whose
-- result is the `kid`, `DecodingKey::from_jwk`, and `decode`.
pub record Jwt : Type 0 where
  pub read : Bytes → Option Bytes
  pub from_slice : Bytes → Option (List Jwk)
  pub decode_header : Bytes → Option (Option Bytes)
  pub from_jwk : Jwk → Option Bytes
  pub decode : Bytes → Bytes → Validation → Option Claims

-- `jwks.find(kid)`: the first key with that `kid`.
abbrev pub has_kid : Bytes → Option Bytes → Bool
has_kid kid none = false
has_kid kid (some k) = bytes_eq k kid

abbrev pub find : Bytes → List Jwk → Option Jwk
find kid [] = none
find kid (j ∷ js) = if has_kid kid j.kid then some j else find kid js

abbrev pub sole : List Jwk → Option Jwk
sole [] = none
sole (j ∷ []) = some j
sole (j ∷ k ∷ js) = none

pub select : Option Bytes → List Jwk → Option Jwk
select (some kid) jwks = find kid jwks
select none jwks = sole jwks

abbrev pub validation_of : OidcConfig → Validation
validation_of cfg = record {
  algorithms = eddsa ∷ [];
  issuer = cfg.issuer;
  audience = cfg.audience;
  validate_exp = true;
  validate_nbf = true;
  required_spec_claims = codes "exp" ∷ codes "iss" ∷ codes "aud" ∷ [];
}

-- `now.saturating_sub(iat) > max_token_age_secs`, when the claim is there as a whole number.
pub is_too_old : ℕ → ℕ → Claims → Bool
is_too_old max_age now claims = elim (claims (codes "iat") >>= as_u64) [
  | none ↦ false
  | some iat ↦ ltb max_age (now - iat)
]

abbrev pub non_empty : Bytes → Option Bytes
non_empty user = if is_empty user then none else some user

module _ (lib : Jwt) (cfg : OidcConfig) where
  pub claims_of : Bytes → Option Claims
  unfolding select
  claims_of token = do
    bytes ← lib.read cfg.jwks_file
    jwks ← lib.from_slice bytes
    kid ← lib.decode_header token
    jwk ← select kid jwks
    key ← lib.from_jwk jwk
    lib.decode token key (validation_of cfg)

  -- The steps after `decode`.
  abbrev pub user_in : ℕ → Claims → Option Bytes
  user_in now claims =
      if is_too_old cfg.max_token_age_secs now claims
      then none
      else (claims cfg.user_claim >>= as_str >>= non_empty)

  pub verify : ℕ → Bytes → Option Bytes
  unfolding claims_of is_too_old
  verify now token = claims_of token >>= user_in now

  pub authenticate : ℕ → Credentials → Verdict
  unfolding verify
  authenticate now (password u p) = deny
  authenticate now (signed_token t) = deny
  authenticate now (jwt token) = elim (verify now token) [ none ↦ deny | some user ↦ allow user ]
