-- ===== src/Auth/Oidc/Allowed.antt =====
-- Which tokens log a user in.
use quish.Base.{
  ℕ, ◌+◌, ◌-◌, ◌≤◌, ◌≡◌, refl, sym, ap, ◌↔◌, inl, inr, false, Option, none, some, List, [], ◌∷◌,
  arith, ltb→ge, ge→ltb, Bool-cases, ◌>>=◌, is_empty,
}
use mathlib.Core.Option.{some-injective}
use quish.Base.Text.{Bytes, codes}
use quish.Auth.Types.{jwt, Verdict, allow, challenge, deny}
use quish.Auth.Oidc.{
  OidcConfig, Value, number, string, other, as_str, Claims, Jwk, Jwt, select, validation_of,
  is_too_old, non_empty, claims_of, user_in, verify, authenticate,
}

bind_some :
    {A B : Type 0} (o : Option A) (f : A → Option B) {b : B}
    → (o >>= f) ≡ some b
    → (a : A) × (o ≡ some a) × (f a ≡ some b)
bind_some none f h = absurd (cc)
bind_some (some a) f h = (a, refl, h)

-- A token whose `iat` is a whole number is not older than `max_age`; of any other token, which has no
-- `iat` or one that is not a whole number, nothing is asked.
abbrev pub IsYoungIfDated : ℕ → ℕ → Claims → Type 0
IsYoungIfDated max_age now claims =
    (iat : ℕ) → claims (codes "iat") ≡ some (number iat) → now ≤ max_age + iat

is_too_old-IsYoungIfDated :
    (max_age now : ℕ) (claims : Claims)
    → is_too_old max_age now claims ≡ false
    → IsYoungIfDated max_age now claims
unfolding is_too_old
is_too_old-IsYoungIfDated max_age now claims h iat h' =
    omega (arith, ltb→ge max_age (now - iat) (rw (is_too_old, h') at h))

IsYoungIfDated-is_too_old :
    (max_age now : ℕ) (claims : Claims) (o : Option Value)
    → claims (codes "iat") ≡ o
    → IsYoungIfDated max_age now claims
    → is_too_old max_age now claims ≡ false
unfolding is_too_old
IsYoungIfDated-is_too_old max_age now claims none e h = rw (is_too_old, e) refl
IsYoungIfDated-is_too_old max_age now claims (some (string s)) e h = rw (is_too_old, e) refl
IsYoungIfDated-is_too_old max_age now claims (some other) e h = rw (is_too_old, e) refl
IsYoungIfDated-is_too_old max_age now claims (some (number n)) e h =
    rw (is_too_old, e) (ge→ltb _ _ (omega (arith, h n e)))

-- The user in a claim.
user_of :
    (o : Option Value) (user : Bytes)
    → (o >>= as_str >>= non_empty) ≡ some user
    → (o ≡ some (string user)) × (is_empty user ≡ false)
user_of none user h = absurd (cc)
user_of (some (number n)) user h = absurd (cc)
user_of (some other) user h = absurd (cc)
user_of (some (string [])) user h = absurd (cc)
user_of (some (string (b ∷ s))) user h =
    let same = some-injective _ _ h in (ap (λ x. some (string x)) same, rw (sym same) refl)

of_user : (user : Bytes) → is_empty user ≡ false → non_empty user ≡ some user
of_user user h = rw h refl

abbrev in_allow : Verdict → Option Bytes
in_allow (allow u) = some u
in_allow (challenge s ps) = none
in_allow deny = none

module _ (lib : Jwt) (cfg : OidcConfig) where
  -- The claims that `decode` gives under a key of the file.
  abbrev pub HasClaims : Bytes → Claims → Type 0
  HasClaims token claims =
      (bytes : Bytes) × (jwks : List Jwk) × (kid : Option Bytes) × (jwk : Jwk) × (key : Bytes)
      × (lib.read cfg.jwks_file ≡ some bytes)
      × (lib.from_slice bytes ≡ some jwks)
      × (lib.decode_header token ≡ some kid)
      × (select kid jwks ≡ some jwk)
      × (lib.from_jwk jwk ≡ some key)
      × (lib.decode token key (validation_of cfg) ≡ some claims)

  claims_of-HasClaims :
      (token : Bytes) {claims : Claims}
      → claims_of lib cfg token ≡ some claims
      → HasClaims token claims
  unfolding claims_of
  claims_of-HasClaims token h =
      let (bytes, e1, h1) = bind_some _ _ h in
      let (jwks, e2, h2) = bind_some _ _ h1 in
      let (kid, e3, h3) = bind_some _ _ h2 in
      let (jwk, e4, h4) = bind_some _ _ h3 in
      let (key, e5, h5) = bind_some _ _ h4 in (bytes, jwks, kid, jwk, key, e1, e2, e3, e4, e5, h5)

  HasClaims-claims_of :
      (token : Bytes) {claims : Claims}
      → HasClaims token claims
      → claims_of lib cfg token ≡ some claims
  unfolding claims_of
  HasClaims-claims_of token (bytes, jwks, kid, jwk, key, e1, e2, e3, e4, e5, e6) =
      rw (claims_of, e1, e2, e3, e4, e5) e6

  allowed :
      (r : Option Bytes) {user : Bytes}
      → (elim r [ none ↦ deny | some u ↦ allow u ]) ≡ allow user
      → r ≡ some user
  allowed none h = absurd (cc)
  allowed (some u) h = ap in_allow h

  -- The backend allows a user exactly for a JWT that the crate accepts, under the settings of
  -- `validation_of` and a key of the file that its `kid` or its being alone selects, whose claim
  -- for the user is this name, and not the empty one, and whose `iat`, if it has one that is a whole
  -- number, is at most `max_token_age_secs` ago: a token without such an `iat` may be of any age.
  pub authenticate_iff :
      (now : ℕ) (token user : Bytes)
      → (authenticate lib cfg now (jwt token) ≡ allow user) ↔ (
          (claims : Claims) × HasClaims token claims
          × IsYoungIfDated cfg.max_token_age_secs now claims
          × (claims cfg.user_claim ≡ some (string user))
          × (is_empty user ≡ false))
  unfolding authenticate verify
  authenticate_iff now token user = (
    λ h.
        let (claims, e, h1) =
          bind_some (claims_of lib cfg token) (user_in lib cfg now)
            (allowed (verify lib cfg now token) h) in
        elim (Bool-cases (is_too_old cfg.max_token_age_secs now claims)) [
          | inl old ↦ absurd (cc (rw old at h1))
          | inr young ↦
              let (name, some_name) = user_of (claims cfg.user_claim) user (rw young at h1) in
              (
                claims,
                claims_of-HasClaims token e,
                is_too_old-IsYoungIfDated cfg.max_token_age_secs now claims young,
                name,
                some_name,
              )
        ],
    λ (claims, has, recent, name, some_name).
        let young =
          IsYoungIfDated-is_too_old cfg.max_token_age_secs now claims (claims (codes "iat")) refl
            recent in
        rw (authenticate, verify, HasClaims-claims_of token has, young, name, some_name) refl,
  )
