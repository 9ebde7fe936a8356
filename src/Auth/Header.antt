-- ===== src/Auth/Header.antt =====
-- quish-auth/src/lib.rs: `parse_authorization`, `basic_header` and `bearer_header`, and
-- quish-auth/src/pubkey.rs: `parse_token`.
pub mod RoundTrip
mod Tests
use quish.Base.{
  ℕ, zero, suc, ◌+◌, ◌-◌, ◌*◌, ◌/◌, ◌%◌, ◌^◌, ◌≤◌, ◌<◌, min, ◌≡◌, refl, sym, ap, ◌∙◌, ◌≢◌, ◌↔◌, ◌⊎◌,
  inl, inr, Bool, true, false, not, ◌&&◌, ◌||◌, Option, none, some, List, [], ◌∷◌, ◌++◌, map,
  reverse, arith, ltb, leb, ◌==◌, if◌then◌else◌, ltb→lt, lt→ltb, ltb→ge, ge→ltb, leb→le, ==_iff,
  ==_refl, Bool-cases, Option-cases, ◌>>=◌, unwrap_or, is_some, length, get_elem?, get_or, take,
  drop, any, all, retain, All, length-append, take-append_length, drop-append_length,
  take-append-drop, take-append_le, drop-append_le, length-take, length-drop,
}
use quish.Base.Text.{Bytes, codes, strip_prefix, split_once, contains, trim}
use quish.Base.Text.Utf8.{from_utf8}
use quish.Proto.Frame.{Codec}
use quish.Auth.Types.{Base64, Token, Credentials, password, signed_token, jwt}

module _ (base64 : Base64) (postcard : Codec Token) where
  pub parse_token : Bytes → Option Token
  parse_token b64 = do bytes ← base64.decode (trim b64); postcard.from_bytes bytes

  parse_basic : Bytes → Option Credentials
  parse_basic rest = do
    decoded ← base64.decode (trim rest)
    s ← from_utf8 decoded
    (user, pass) ← split_once b':' s
    some (password user pass)

  parse_bearer : Bytes → Option Credentials
  unfolding parse_token
  parse_bearer rest =
      if contains b'.' rest
      then some (jwt rest)
      else (parse_token rest >>= λ token. some (signed_token token))

  unfoldable pub parse_authorization : Option Bytes → Option Credentials
  unfolding parse_basic parse_bearer
  parse_authorization none = none
  parse_authorization (some header) = elim (strip_prefix (codes "Basic ") header) [
    | some rest ↦ parse_basic rest
    | none ↦ elim (strip_prefix (codes "Bearer ") header) [
      | some rest ↦ parse_bearer (trim rest)
      | none ↦ none
    ]
  ]

pub basic_header : Base64 → Bytes → Bytes → Bytes
basic_header base64 username pass = codes "Basic " ++ base64.encode (username ++ b':' ∷ pass)

pub bearer_header : Bytes → Bytes
bearer_header token_b64 = codes "Bearer " ++ token_b64
