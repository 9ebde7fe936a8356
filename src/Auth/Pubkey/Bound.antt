-- ===== src/Auth/Pubkey/Bound.antt =====
-- quish-auth/src/pubkey.rs: what one signature is good for.
use quish.Base.{ℕ, ◌+◌, ◌^◌, ◌≤◌, ◌<◌, ◌≡◌, sym, ap, ◌∙◌, true, length}
use quish.Base.Text.{Bytes}
use quish.Auth.Types.{Token, Credentials, password, signed_token, jwt, ConnInfo, allow}
use quish.Auth.Pubkey.{Crypto, PubkeyBackend, timestamp_window_secs, signing_payload, authenticate}
use quish.Auth.Pubkey.Soundness.{Authentic, authenticate-allow}
use quish.Auth.Pubkey.Payload.{signing_payload_injective}

signature_of : Credentials → Token → Token
signature_of (password u p) t = t
signature_of (signed_token tok) t = tok
signature_of (jwt j) t = t

module _ (crypto : Crypto) (b : PubkeyBackend) (now : ℕ) where
  -- When the signature of a token is valid, under the token's key, for no bytes but those that its
  -- owner signed for one binding, name and time (bindings of 32 bytes, times below 2 ^ 64), then a
  -- connection that the token is allowed on has this binding, the user is this name, and now is at
  -- most ten minutes away from this time.
  pub authenticate-bound :
      (conn : ConnInfo) (tok : Token) (user binding name : Bytes) (time : ℕ)
      → length conn.channel_binding ≡ 32
      → length binding ≡ 32
      → tok.timestamp < 2 ^ 64
      → time < 2 ^ 64
      → ((message : Bytes)
          → crypto.verify tok.pubkey message tok.signature ≡ true
          → message ≡ signing_payload binding name time)
      → authenticate crypto b now conn (signed_token tok) ≡ allow user
      → (conn.channel_binding ≡ binding)
        × (user ≡ name)
        × (now ≤ time + timestamp_window_secs)
        × (time ≤ now + timestamp_window_secs)
  unfolding signature_of
  authenticate-bound conn tok user binding name time lc lb lt lt' only allowed =
      let (tok', same, user_is, authentic) =
        (authenticate-allow crypto b now conn (signed_token tok) user).0 allowed in
      let e : tok ≡ tok' = ap (λ c. signature_of c tok) same in
      let a : Authentic crypto b now conn.channel_binding tok = rw e authentic in
      let (bindings, names, times) =
        signing_payload_injective conn.channel_binding binding tok.username name tok.timestamp time
          lc lb lt lt' (only _ a.signed) in
      (
        bindings,
        user_is ∙ ap (λ (t : Token). t.username) (sym e) ∙ names,
        rw (← times) a.not_old,
        rw (← times) a.not_ahead,
      )
