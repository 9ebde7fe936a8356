-- ===== src/Auth/Header/RoundTrip.antt =====
-- What the client writes into `Authorization` is what the server reads out of it.
use quish.Base.{◌≡◌, false, some, ◌∷◌, ◌++◌, arith}
use quish.Base.Text.{Bytes, contains}
use quish.Base.Text.Laws.{trim_graphic, split_once-append}
use quish.Base.Text.Utf8.{IsUtf8, from_utf8-IsUtf8, append-IsUtf8, ascii-IsUtf8}
use quish.Proto.Frame.{Codec}
use quish.Auth.Types.{Base64, Token, password, signed_token}
use quish.Auth.Header.{parse_authorization, basic_header, bearer_header}

module _ (base64 : Base64) (postcard : Codec Token) where
  pair-IsUtf8 : (u p : Bytes) → IsUtf8 u → IsUtf8 p → IsUtf8 (u ++ b':' ∷ p)
  pair-IsUtf8 u p hu hp = append-IsUtf8 u (b':' ∷ p) hu (ascii-IsUtf8 b':' p (omega arith) hp)

  -- A name without a colon and any password come back as they went in.
  pub parse_authorization-basic_header :
      (user pass : Bytes)
      → IsUtf8 user
      → IsUtf8 pass
      → contains b':' user ≡ false
      → parse_authorization base64 postcard (some (basic_header base64 user pass))
        ≡ some (password user pass)
  unfolding parse_authorization basic_header
  parse_authorization-basic_header user pass hu hp h =
      let sent = user ++ b':' ∷ pass in
      rw (trim_graphic _ (base64.encode_graphic sent)) (
        rw (base64.decode-encode sent) (
          rw (from_utf8-IsUtf8 sent (pair-IsUtf8 user pass hu hp))
            (rw (split_once-append b':' user pass h))))

  -- A token of the client comes back as the same token, and never as a JWT.
  pub parse_authorization-bearer_header :
      (token : Token) (bytes : Bytes)
      → postcard.to_stdvec token ≡ some bytes
      → parse_authorization base64 postcard (some (bearer_header (base64.encode bytes)))
        ≡ some (signed_token token)
  unfolding parse_authorization bearer_header
  parse_authorization-bearer_header token bytes h =
      rw (trim_graphic _ (base64.encode_graphic bytes)) (
        rw (base64.encode_dotless bytes) (
          rw (trim_graphic _ (base64.encode_graphic bytes))
            (rw (base64.decode-encode bytes) (rw (postcard.from_to token bytes h)))))
