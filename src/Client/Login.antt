-- ===== src/Client/Login.antt =====
-- quish-client/src/main.rs: `build_authorization`, `build_connect_request_with`, `read_prompt`,
-- `open_channel` and the one CONNECT of a forward channel.
-- http, h3 and the terminal are outside: what they answer is read from the state `W` of the world.
pub mod Equations
pub mod Rounds
pub mod Wire
pub mod Served
pub mod Forwards
mod Tests
use quish.Base.{
  ℕ, zero, suc, ◌+◌, ◌-◌, ◌*◌, ◌/◌, ◌%◌, ◌^◌, ◌≤◌, ◌<◌, min, ◌≡◌, refl, sym, ap, ◌∙◌, ◌≢◌, ◌↔◌, ◌⊎◌,
  inl, inr, Bool, true, false, not, ◌&&◌, ◌||◌, Option, none, some, List, [], ◌∷◌, ◌++◌, map,
  reverse, arith, ltb, leb, ◌==◌, if◌then◌else◌, ltb→lt, lt→ltb, ltb→ge, ge→ltb, leb→le, ==_iff,
  ==_refl, Bool-cases, Option-cases, ◌>>=◌, unwrap_or, is_some, length, get_elem?, get_or, take,
  drop, is_empty, any, all, retain, All, length-append, take-append_length, drop-append_length,
  take-append-drop, take-append_le, drop-append_le, length-take, length-drop,
}
use quish.Base.Text.{Bytes, codes, contains}
use quish.Proto.Frame.{Codec}
use quish.Proto.Message.{Challenge, ChallengeAnswer, encode_header, decode_header}
use quish.Auth.Types.{Base64, Prompt}
use quish.Auth.Header.{basic_header, bearer_header}
use quish.Client.Target.{Target}

-- `QUISH_OIDC_TOKEN` and `QUISH_PASSWORD`, then what the identity file, `build_token` and the
-- prompt give: `none` is an error.
pub record Secrets : Type 0 where
  pub oidc_token : Option Bytes
  pub password : Option Bytes
  pub read_file : Bytes → Option Bytes
  pub build_token : Bytes → Bytes → Bytes → Option Bytes
  pub prompt_password : Option Bytes

pub from_identity : Base64 → Bytes → Option Bytes → Bytes → Secrets → Option Bytes
from_identity base64 user (some path) binding s = do
  key ← s.read_file path
  token ← s.build_token key user binding
  some (bearer_header token)
from_identity base64 user none binding s = do
  pass ← elim s.password [ none ↦ s.prompt_password | some p ↦ some p ]
  some (basic_header base64 user pass)

pub build_authorization : Base64 → Bytes → Option Bytes → Bytes → Secrets → Option Bytes
unfolding from_identity
build_authorization base64 user identity binding s = elim s.oidc_token [
  | none ↦ from_identity base64 user identity binding s
  | some [] ↦ from_identity base64 user identity binding s
  | some (b ∷ token) ↦ some (bearer_header (b ∷ token))
]

-- `n.to_string()` on the ports and on `PROTOCOL_VERSION`, and `trim_end_matches(['\r', '\n'])`.
abbrev drop_newlines : Bytes → Bytes
drop_newlines [] = []
drop_newlines (b ∷ bs) =
    let rest = drop_newlines bs in
    if is_empty rest && ((b == 13) || (b == 10)) then [] else b ∷ rest

pub read_prompt : Option Bytes → Prompt → Option Bytes → Option Bytes → Option Bytes
read_prompt (some totp) prompt line hidden = some totp
read_prompt none prompt line hidden =
    if prompt.echo then (line >>= λ l. some (drop_newlines l)) else hidden

-- `socket_target`, given the port in decimals.
pub socket_target : Bytes → Bytes → Bytes
socket_target host port =
    if contains b':' host
    then codes "[" ++ host ++ codes "]:" ++ port
    else host ++ codes ":" ++ port

-- An extended CONNECT. `to_string` prints a number.
pub record ConnectRequest : Type 0 where
  pub uri : Bytes
  pub version : Bytes
  pub authorization : Bytes
  pub challenge_response : Option Bytes

abbrev pub build_connect_request_with : (ℕ → Bytes) → Target → Bytes → Option Bytes → ConnectRequest
build_connect_request_with to_string target authorization answer = record {
  uri = codes "https://" ++ socket_target target.host (to_string target.port) ++ target.path;
  version = to_string 2;
  authorization = authorization;
  challenge_response = answer;
}

pub record Response : Type 0 where
  pub status : ℕ
  pub challenge : Option Bytes

-- The errors of a channel that is not opened. `panicked` is the `expect` of the encoder.
pub data OpenError : Type 0 where
  no_response unread panicked authentication_failed version_mismatch : OpenError
  rejected_status : ℕ → OpenError

-- What the client asks of the world: a request, and a line for a prompt.
pub record Peer (W : Type 0) : Type 0 where
  pub exchange : ConnectRequest → W → Option Response × W
  pub read : Prompt → W → Option Bytes × W

module _ {W : Type 0} (read : Prompt → W → Option Bytes × W) where
  -- `prompts.iter().map(read).collect::<Result<Vec<_>>>()`: the first error ends it.
  pub read_all : List Prompt → W → Option (List Bytes) × W
  read_all [] w = (some [], w)
  read_all (p ∷ ps) w =
      let (line, w1) = read p w in
      let (rest, w2) = read_all ps w1 in
      elim line [ none ↦ (none, w1) | some l ↦ ((rest >>= λ ls. some (l ∷ ls)), w2) ]

  pub build_challenge_answer : Challenge → W → Option ChallengeAnswer × W
  unfolding read_all
  build_challenge_answer c w =
      let (lines, w1) = read_all c.prompts w in
      ((lines >>= λ ls. some (record { token = c.token; responses = ls })), w1)

-- How `open_channel` ends.
pub data Opened : Type 0 where
  opened : Opened
  failed : OpenError → Opened

-- What one response comes to: an end, or a challenge to answer.
pub data Step : Type 0 where
  finished : Opened → Step
  asked : Challenge → Step

pub classify : Base64 → Codec Challenge → Option Response → Step
classify base64 postcard none = finished (failed no_response)
classify base64 postcard (some r) =
    if r.status == 200
    then finished opened
    else if r.status == 401
    then elim (r.challenge >>= λ v. decode_header base64 postcard v) [
      | none ↦ finished (failed authentication_failed)
      | some c ↦ asked c
    ]
    else finished (failed (if r.status == 426 then version_mismatch else rejected_status r.status))

abbrev pub max_challenge_rounds : ℕ
max_challenge_rounds = 3

module _ (base64 : Base64) (challenges : Codec Challenge) (answers : Codec ChallengeAnswer)
    (to_string : ℕ → Bytes) {W : Type 0} (peer : Peer W) (target : Target)
    (authorization : Bytes) where
  -- One CONNECT, and what its response comes to.
  pub ask : Option Bytes → W → Step × W
  unfolding classify
  ask answer w =
      let (resp, w1) =
        peer.exchange (build_connect_request_with to_string target authorization answer) w in
      (classify base64 challenges resp, w1)

  -- The header of the next round.
  pub answer_challenge : Challenge → W → (OpenError ⊎ Bytes) × W
  unfolding build_challenge_answer
  answer_challenge c w =
      let (a, w1) = build_challenge_answer peer.read c w in
      (
        elim a [
          | none ↦ inl unread
          | some a ↦ elim (encode_header base64 answers a) [ none ↦ inl panicked | some v ↦ inr v ]
        ],
        w1,
      )

  -- The rounds that are left after this one, and the answer this one sends.
  pub rounds : ℕ → Option Bytes → W → Opened × W
  unfolding ask answer_challenge
  rounds zero answer w =
      let (step, w1) = ask answer w in
      elim step [ finished end ↦ (end, w1) | asked c ↦ (failed authentication_failed, w1) ]
  rounds (suc left) answer w =
      let (step, w1) = ask answer w in
      elim step [
        | finished end ↦ (end, w1)
        | asked c ↦
            let (header, w2) = answer_challenge c w1 in
            elim header [ inl e ↦ (failed e, w2) | inr v ↦ rounds left (some v) w2 ]
      ]

  pub open_channel : W → Opened × W
  unfolding rounds
  open_channel w = rounds max_challenge_rounds none w

  -- `forward_one`, `remote_forward_listen` and `remote_forward_data` up to their first frame.
  pub open_forward : W → Opened × W
  open_forward w =
      let (resp, w1) =
        peer.exchange (build_connect_request_with to_string target authorization none) w in
      elim resp [
        | none ↦ (failed no_response, w1)
        | some r ↦ ((if r.status == 200 then opened else failed (rejected_status r.status)), w1)
      ]
