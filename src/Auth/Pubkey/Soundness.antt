-- ===== src/Auth/Pubkey/Soundness.antt =====
-- When `PubkeyBackend` answers `Allow`.
use quish.Base.{ℕ, ◌+◌, ◌≤◌, ◌≡◌, refl, ap, ◌↔◌, true, arith, length}
use quish.Base.Text.{Bytes}
use quish.Auth.Types.{Token, Credentials, password, signed_token, jwt, ConnInfo, allow}
use quish.Auth.Pubkey.{
  Crypto, PubkeyBackend, timestamp_window_secs, signing_payload, abs_diff, authorized, check_token,
  authenticate, new_token,
}

-- What a token has to be on a connection with the given binding.
pub record Authentic (crypto : Crypto) (b : PubkeyBackend) (now : ℕ) (binding : Bytes) (tok : Token)
    : Type 0 where
  pub not_old : now ≤ tok.timestamp + timestamp_window_secs
  pub not_ahead : tok.timestamp ≤ now + timestamp_window_secs
  pub listed : authorized crypto b tok ≡ true
  pub key_valid : crypto.verifying_key tok.pubkey ≡ true
  pub signature_length : length tok.signature ≡ 64
  pub signed :
      crypto.verify tok.pubkey (signing_payload binding tok.username tok.timestamp) tok.signature
      ≡ true

token_or : Token → Credentials → Token
token_or t (password u p) = t
token_or t (signed_token tok) = tok
token_or t (jwt j) = t

module _ (crypto : Crypto) (b : PubkeyBackend) (now : ℕ) where
  check_token→Authentic :
      (binding : Bytes) (tok : Token) (user : Bytes)
      → check_token crypto b now binding tok ≡ allow user
      → (user ≡ tok.username) × Authentic crypto b now binding tok
  unfolding check_token abs_diff
  check_token→Authentic binding tok user h = ground arith

  Authentic→check_token :
      (binding : Bytes) (tok : Token)
      → Authentic crypto b now binding tok
      → check_token crypto b now binding tok ≡ allow tok.username
  unfolding check_token abs_diff
  Authentic→check_token binding tok h = ground arith

  -- `Allow` names a user exactly if the credential is a token of that user, of a time at most ten
  -- minutes away, whose key the user's file lists, signed over this connection's binding.
  pub authenticate-allow :
      (conn : ConnInfo) (creds : Credentials) (user : Bytes)
      → (authenticate crypto b now conn creds ≡ allow user) ↔ (
          (tok : Token) × (creds ≡ signed_token tok)
          × (user ≡ tok.username)
          × Authentic crypto b now conn.channel_binding tok)
  unfolding authenticate token_or
  authenticate-allow conn (password u p) user =
      ((λ h. absurd (cc)), λ h. let (tok, e, n, a) = h in absurd (cc))
  authenticate-allow conn (jwt t) user =
      ((λ h. absurd (cc)), λ h. let (tok, e, n, a) = h in absurd (cc))
  authenticate-allow conn (signed_token tok) user = (
    λ h. let (e, a) = check_token→Authentic conn.channel_binding tok user h in (tok, refl, e, a),
    λ h.
        let (tok', e, n, a) = h in
        rw n (rw (ap (token_or tok) e) (Authentic→check_token conn.channel_binding tok' a)),
  )

  -- A token that the client signs with a listed key for this connection is accepted while its time
  -- is within the window.
  pub authenticate-new_token :
      (conn : ConnInfo) (secret username : Bytes) (timestamp : ℕ)
      → now ≤ timestamp + timestamp_window_secs
      → timestamp ≤ now + timestamp_window_secs
      → authorized crypto b (new_token crypto secret username conn.channel_binding timestamp) ≡ true
      → authenticate crypto b now conn
          (signed_token (new_token crypto secret username conn.channel_binding timestamp))
        ≡ allow username
  unfolding authenticate new_token
  authenticate-new_token conn secret username timestamp old ahead listed =
      Authentic→check_token conn.channel_binding
        (new_token crypto secret username conn.channel_binding timestamp)
        (record {
          not_old = old;
          not_ahead = ahead;
          listed = listed;
          key_valid = crypto.public_key_valid secret;
          signature_length = crypto.length-sign secret _;
          signed = crypto.sign-verify secret _;
        })
