-- ===== src/Proto/Message.antt =====
-- quish-proto/src/lib.rs: the messages of a channel, the challenge headers and the version gate.
pub mod Headers
mod Tests
use quish.Base.{
  ℕ, zero, suc, ◌+◌, ◌-◌, ◌*◌, ◌/◌, ◌%◌, ◌^◌, ◌≤◌, ◌<◌, min, ◌≡◌, refl, sym, ap, ◌∙◌, ◌≢◌, ◌↔◌, ◌⊎◌,
  inl, inr, Bool, true, false, not, ◌&&◌, ◌||◌, Option, none, some, List, [], ◌∷◌, ◌++◌, map,
  reverse, arith, ltb, leb, ◌==◌, if◌then◌else◌, ltb→lt, lt→ltb, ltb→ge, ge→ltb, leb→le, ==_iff,
  ==_refl, Bool-cases, Option-cases, ◌>>=◌, unwrap_or, is_some, length, get_elem?, get_or, take,
  drop, any, all, retain, All, length-append, take-append_length, drop-append_length,
  take-append-drop, take-append_le, drop-append_le, length-take, length-drop,
}
use quish.Base.Int.{ℤ}
use quish.Base.Text.{Bytes, trim, parse_u32}
use quish.Proto.Frame.{Codec}
use quish.Auth.Types.{Base64, Prompt}

pub data Signal : Type 0 where
  int quit term : Signal

-- `data` is a keyword: the constructors of `ChannelMessage` say what they carry.
pub data ChannelMessage : Type 0 where
  data_msg : Bytes → ChannelMessage
  data_err : Bytes → ChannelMessage
  resize : ℕ → ℕ → ChannelMessage
  exit_status : ℤ → ChannelMessage
  signal : Signal → ChannelMessage

pub record Challenge : Type 0 where
  pub token : Bytes
  pub prompts : List Prompt

pub record ChallengeAnswer : Type 0 where
  pub token : Bytes
  pub responses : List Bytes

abbrev pub protocol_version : ℕ
protocol_version = 2

-- Whether a number was parsed, and is the version.
abbrev is_current : Option ℕ → Bool
is_current none = false
is_current (some v) = v == protocol_version

unfoldable pub version_supported : Option Bytes → Bool
version_supported header = is_current (header >>= λ s. parse_u32 (trim s))

-- `encode_challenge` and `encode_challenge_answer`, whose `expect` is the `none` here, and
-- `decode_challenge` and `decode_challenge_answer`.
module _ (base64 : Base64) {T : Type 0} (postcard : Codec T) where
  unfoldable pub encode_header : T → Option Bytes
  encode_header message = postcard.to_stdvec message >>= λ bytes. some (base64.encode bytes)

  pub decode_header : Bytes → Option T
  decode_header value = base64.decode (trim value) >>= λ bytes. postcard.from_bytes bytes
