-- ===== src/Auth/Pubkey.antt =====
-- quish-auth/src/pubkey.rs: tokens that are signed over the TLS channel binding.
-- The ed25519-dalek and ssh-key crates are parameters; the clock and the files are arguments.
pub mod Soundness
pub mod Bound
pub mod Payload
mod Tests
use quish.Base.{
  ℕ, zero, suc, ◌+◌, ◌-◌, ◌*◌, ◌/◌, ◌%◌, ◌^◌, ◌≤◌, ◌<◌, min, ◌≡◌, refl, sym, ap, ◌∙◌, ◌≢◌, ◌↔◌, ◌⊎◌,
  inl, inr, Bool, true, false, not, ◌&&◌, ◌||◌, Option, none, some, List, [], ◌∷◌, ◌++◌, map,
  reverse, arith, ltb, leb, ◌==◌, if◌then◌else◌, ltb→lt, lt→ltb, ltb→ge, ge→ltb, leb→le, ==_iff,
  ==_refl, Bool-cases, Option-cases, ◌>>=◌, unwrap_or, is_some, length, get_elem?, get_or, take,
  drop, is_empty, any, all, retain, All, length-append, take-append_length, drop-append_length,
  take-append-drop, take-append_le, drop-append_le, length-take, length-drop,
}
use quish.Base.Text.{Bytes, codes, bytes_eq, trim}
use quish.Base.Text.Lines.{lines}
use quish.Base.Text.Utf8.{from_utf8}
use quish.Proto.Frame.{Codec}
use quish.Auth.Types.{
  Base64, Token, Credentials, password, signed_token, jwt, ConnInfo, Verdict, allow, deny,
  AuthBackend, is_signed_token,
}

abbrev pub token_domain : Bytes
token_domain = codes "quish-pubkey-auth-v1"

abbrev pub timestamp_window_secs : ℕ
timestamp_window_secs = 600

-- What the code uses of the two crates. A verifying key is its 32 bytes; `verifying_key` says
-- whether `VerifyingKey::from_bytes` takes them. `sign-verify` is the documented contract.
pub record Crypto : Type 0 where
  pub public_key : Bytes → Bytes
  pub sign : Bytes → Bytes → Bytes
  pub verifying_key : Bytes → Bool
  pub verify : Bytes → Bytes → Bytes → Bool
  -- `PublicKey::from_openssh(line)`, and the ed25519 key that it holds.
  pub openssh_ed25519 : Bytes → Option Bytes
  pub length-sign : (secret message : Bytes) → length (sign secret message) ≡ 64
  pub public_key_valid : (secret : Bytes) → verifying_key (public_key secret) ≡ true
  pub sign-verify :
      (secret message : Bytes) → verify (public_key secret) message (sign secret message) ≡ true

-- `u64::to_le_bytes`.
pub to_le_bytes : ℕ → Bytes
to_le_bytes n =
    n % 256
    ∷ n / 2 ^ 8 % 256
    ∷ n / 2 ^ 16 % 256
    ∷ n / 2 ^ 24 % 256
    ∷ n / 2 ^ 32 % 256
    ∷ n / 2 ^ 40 % 256
    ∷ n / 2 ^ 48 % 256
    ∷ n / 2 ^ 56 % 256
    ∷ []

pub signing_payload : Bytes → Bytes → ℕ → Bytes
signing_payload binding username timestamp =
    token_domain ++ (binding ++ (username ++ to_le_bytes timestamp))

pub abs_diff : ℕ → ℕ → ℕ
abs_diff a b = if ltb a b then b - a else a - b

abbrev pub starts_with_hash : Bytes → Bool
starts_with_hash [] = false
starts_with_hash (c ∷ _) = c == b'#'

-- A file as `read_authorized_keys` meets it: no such file, a symbolic link (which `O_NOFOLLOW`
-- refuses), something that is not a regular file, or its bytes.
pub data File : Type 0 where
  missing symlink not_regular : File
  regular : Bytes → File

abbrev pub max_authorized_keys_bytes : ℕ
max_authorized_keys_bytes = 64 * 1024

pub read_authorized_keys : File → Option Bytes
read_authorized_keys missing = none
read_authorized_keys symlink = none
read_authorized_keys not_regular = none
read_authorized_keys (regular content) = from_utf8 (take max_authorized_keys_bytes content)

pub key_line_matches : Crypto → Bytes → Bytes → Bool
key_line_matches crypto line pubkey =
    let line = trim line in
    if is_empty line || starts_with_hash line
    then false
    else unwrap_or (crypto.openssh_ed25519 line >>= λ key. some (bytes_eq key pubkey)) false

-- `PubkeyBackend`: the resolver, and the files as they are during the attempt.
pub record PubkeyBackend : Type 0 where
  pub resolver : Bytes → Option Bytes
  pub file_at : Bytes → File

module _ (crypto : Crypto) where
  pub authorized : PubkeyBackend → Token → Bool
  authorized b tok = elim (b.resolver tok.username) [
    | some path ↦ elim (read_authorized_keys (b.file_at path)) [
      | some contents ↦ any (λ line. key_line_matches crypto line tok.pubkey) (lines contents)
      | none ↦ false
    ]
    | none ↦ false
  ]

  -- `authenticate` on a token; `now` is `now_secs()`.
  pub check_token : PubkeyBackend → ℕ → Bytes → Token → Verdict
  check_token b now binding tok =
      if ltb timestamp_window_secs (abs_diff tok.timestamp now)
      then deny
      else if not (authorized b tok)
      then deny
      else if not (crypto.verifying_key tok.pubkey)
      then deny
      else if not (length tok.signature == 64)
      then deny
      else if crypto.verify tok.pubkey (signing_payload binding tok.username tok.timestamp)
          tok.signature
      then allow tok.username
      else deny

  pub authenticate : PubkeyBackend → ℕ → ConnInfo → Credentials → Verdict
  authenticate b now conn (password u p) = deny
  authenticate b now conn (signed_token tok) = check_token b now conn.channel_binding tok
  authenticate b now conn (jwt t) = deny

  pub pubkey_backend : PubkeyBackend → ℕ → AuthBackend
  pubkey_backend b now = record { supports = is_signed_token; authenticate = authenticate b now }

  -- The token of `sign_token`; the wire form is its postcard in base64.
  pub new_token : Bytes → Bytes → Bytes → ℕ → Token
  new_token signing username binding timestamp = record {
    username = username;
    pubkey = crypto.public_key signing;
    timestamp = timestamp;
    signature = crypto.sign signing (signing_payload binding username timestamp);
  }

  pub sign_token : Base64 → Codec Token → Bytes → Bytes → Bytes → ℕ → Option Bytes
  sign_token base64 postcard signing username binding timestamp =
      postcard.to_stdvec (new_token signing username binding timestamp) >>= λ bytes.
      some (base64.encode bytes)
