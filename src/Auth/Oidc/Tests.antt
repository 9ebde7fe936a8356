-- ===== src/Auth/Oidc/Tests.antt =====
-- Tests of the OIDC backend.
use quish.Base.{◌≡◌, refl, ◌↔◌, false, none, some, [], ◌∷◌, if◌then◌else◌, is_empty}
use quish.Base.Text.{codes}
use quish.Auth.Types.{jwt, allow, deny}
use quish.Auth.Oidc.{
  OidcConfig, Value, number, string, other, Claims, Jwt, select, is_too_old, claims_of, verify,
  authenticate,
}
use quish.Base.Text.{bytes_eq}
use quish.Auth.Oidc.{verifier_factory, rs256}
use quish.Auth.Oidc.Allowed.{HasClaims, IsYoungIfDated, authenticate_iff}

abbrev cfg : OidcConfig
cfg = record {
  issuer = codes "i";
  audience = codes "a";
  jwks_file = codes "f";
  user_claim = codes "name";
  max_token_age_secs = 300;
}

-- A token whose claims are a name and this `iat`.
abbrev claims : Value → Claims
claims iat claim =
    if bytes_eq claim (codes "iat")
    then some iat
    else if bytes_eq claim (codes "name")
    then some (string (codes "al"))
    else none

abbrev lib : Value → Jwt
lib iat = record {
  read = λ path. some [];
  from_slice = λ bytes. some (record { kid = none; key = codes "k" } ∷ []);
  decode_header = λ token. some none;
  from_jwk = λ jwk. some jwk.key;
  decode = λ token key validation. if bytes_eq key (codes "k") then some (claims iat) else none;
}

authenticate_iff_example :
    (authenticate (lib (number 1000)) cfg 1200 (jwt (codes "t")) ≡ allow (codes "al")) ↔ (
      (c : Claims) × HasClaims (lib (number 1000)) cfg (codes "t") c
      × IsYoungIfDated 300 1200 c
      × (c (codes "name") ≡ some (string (codes "al")))
      × (is_empty (codes "al") ≡ false))
authenticate_iff_example = authenticate_iff (lib (number 1000)) cfg 1200 (codes "t") (codes "al")

too_old : authenticate (lib (number 1000)) cfg 1301 (jwt (codes "t")) ≡ deny
unfolding authenticate verify claims_of is_too_old select
too_old = refl

-- An `iat` that is not a whole number, such as 1000.5, does not count.
fraction : authenticate (lib other) cfg 99999 (jwt (codes "t")) ≡ allow (codes "al")
unfolding authenticate verify claims_of is_too_old select
fraction = refl

-- No key of a file with two is chosen without a `kid`.
ambiguous :
    select none (record { kid = none; key = [] } ∷ record { kid = none; key = [] } ∷ []) ≡ none
unfolding select
ambiguous = refl

other_algorithm :
    verifier_factory (λ raw. some raw) rs256 (codes "01234567890123456789012345678901") ≡ none
unfolding verifier_factory
other_algorithm = refl
