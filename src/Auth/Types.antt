-- ===== src/Auth/Types.antt =====
-- quish-auth/src/lib.rs: the types that backends and the registry share, and the crates that they
-- call: base64, postcard and the parts of them that the code relies on.
use quish.Base.{ℕ, ◌≡◌, Bool, true, false, Option, some, List, ◌==◌, any, All}
use quish.Base.Text.{Bytes}
use quish.Base.Text.Laws.{IsGraphic}

-- The base64 crate, standard alphabet. The laws are those of RFC 4648: decoding undoes encoding,
-- and the alphabet is `A-Z a-z 0-9 + / =`, so visible ASCII with no `.`.
pub record Base64 : Type 0 where
  pub encode : Bytes → Bytes
  pub decode : Bytes → Option Bytes
  pub decode-encode : (b : Bytes) → decode (encode b) ≡ some b
  pub encode_graphic : (b : Bytes) → All IsGraphic (encode b)
  pub encode_dotless : (b : Bytes) → any (λ c. c == b'.') (encode b) ≡ false

-- `pubkey::Token`.
pub record Token : Type 0 where
  pub username : Bytes
  pub pubkey : Bytes
  pub timestamp : ℕ
  pub signature : Bytes

pub data Credentials : Type 0 where
  password : Bytes → Bytes → Credentials
  signed_token : Token → Credentials
  jwt : Bytes → Credentials

-- `quish_proto::Prompt`.
pub record Prompt : Type 0 where
  pub message : Bytes
  pub echo : Bool

pub record ChallengeState : Type 0 where
  pub token : Bytes
  pub pending_user : Option Bytes

pub record ChallengeResponse : Type 0 where
  pub state : ChallengeState
  pub responses : List Bytes

pub record ConnInfo : Type 0 where
  pub peer_addr : Bytes
  pub channel_binding : Bytes
  pub challenge : Option ChallengeResponse

pub data Verdict : Type 0 where
  allow : Bytes → Verdict
  challenge : ChallengeState → List Prompt → Verdict
  deny : Verdict

-- `trait AuthBackend`. What a backend reads beside its arguments (clock, files, random bytes) is
-- fixed in the value that stands for it during one attempt.
pub record AuthBackend : Type 0 where
  pub supports : Credentials → Bool
  pub authenticate : ConnInfo → Credentials → Verdict

-- `matches!(creds, Credentials::Password { .. })` and its siblings.
abbrev pub is_password : Credentials → Bool
is_password (password u p) = true
is_password (signed_token t) = false
is_password (jwt t) = false

abbrev pub is_signed_token : Credentials → Bool
is_signed_token (password u p) = false
is_signed_token (signed_token t) = true
is_signed_token (jwt t) = false

abbrev pub is_jwt : Credentials → Bool
is_jwt (password u p) = false
is_jwt (signed_token t) = false
is_jwt (jwt t) = true

abbrev pub is_allow : Verdict → Bool
is_allow (allow u) = true
is_allow (challenge s ps) = false
is_allow deny = false
