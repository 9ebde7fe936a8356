-- ===== src/Client/Login/Tests.antt =====
-- Tests of a login.
-- A codec of the challenges with one hidden prompt: the length of the token, the token, the prompt.
use quish.Base.{
  ℕ, ◌+◌, ◌≤◌, ◌≡◌, refl, sym, Bool, true, false, Option, none, some, List, [], ◌∷◌, ◌++◌, arith,
  ◌==◌, if◌then◌else◌, ◌>>=◌, length, take, drop, take-append_length, drop-append_length,
}
use quish.Base.Text.{Bytes, codes}
use quish.Proto.Frame.{Codec}
use quish.Proto.Message.{Challenge, ChallengeAnswer, encode_header, version_supported}
use quish.Auth.Types.{Prompt}
use quish.Client.Target.{Target}
use quish.Client.Login.{
  Peer, read_all, open_channel, opened, failed, open_forward, rejected_status, socket_target,
}
use quish.Server.Transport.{respond_challenge, AuthOutcome, allowed, denied, challenged}
use quish.Client.Login.Wire.{Server, reply_response, Setting, server, is_opened}
use mathlib.Core.Option.{some-injective}
use quish.Base.Text.{bytes_eq, strip_prefix, split_once, trim, parse_u32}
use quish.Samples.{unary_base64}
use quish.Server.RateLimit.{v4, default_limiter}
use quish.Client.Login.{read_prompt}
use quish.Client.Login.Rounds.{logged, IsLog, open_channel-IsBounded}
use quish.Client.Login.Served.{open_channel-channels}
use quish.Client.Login.Forwards.{open_forward_challenged}

abbrev one_prompt : Bytes → Bytes → Bool → Option Bytes
one_prompt token message true = none
one_prompt token message false = some (length token ∷ (token ++ message))

abbrev challenge_bytes : Bytes → List Prompt → Option Bytes
challenge_bytes token [] = none
challenge_bytes token (p ∷ []) = one_prompt token p.message p.echo
challenge_bytes token (p ∷ q ∷ ps) = none

abbrev read_challenge : Bytes → Option Challenge
read_challenge [] = none
read_challenge (n ∷ rest) =
    some (record {
      token = take n rest;
      prompts = record { message = drop n rest; echo = false } ∷ [];
    })

abbrev of_prompt : Bytes → Bytes → Challenge
of_prompt token message = record {
  token = token;
  prompts = record { message = message; echo = false } ∷ [];
}

read_prompt_back :
    (token message : Bytes) (echo : Bool) (b : Bytes)
    → one_prompt token message echo ≡ some b
    → read_challenge b
      ≡ some (record { token = token; prompts = record { message = message; echo = echo } ∷ [] })
read_prompt_back token message true b h = absurd (cc)
read_prompt_back token message false b h =
    rw (sym (some-injective _ b h))
      (rw (take-append_length token message) (rw (drop-append_length token message) refl))

read_challenge_back :
    (token : Bytes) (prompts : List Prompt) (b : Bytes)
    → challenge_bytes token prompts ≡ some b
    → read_challenge b ≡ some (record { token = token; prompts = prompts })
read_challenge_back token [] b h = absurd (cc)
read_challenge_back token (p ∷ []) b h = read_prompt_back token p.message p.echo b h
read_challenge_back token (p ∷ q ∷ ps) b h = absurd (cc)

abbrev challenge_codec : Codec Challenge
challenge_codec = record {
  to_stdvec = λ c. challenge_bytes c.token c.prompts;
  from_bytes = read_challenge;
  from_to = λ c b h. read_challenge_back c.token c.prompts b h;
}

-- The same for the answers with one response.
abbrev answer_bytes : Bytes → List Bytes → Option Bytes
answer_bytes token [] = none
answer_bytes token (r ∷ []) = some (length token ∷ (token ++ r))
answer_bytes token (r ∷ q ∷ rs) = none

abbrev read_answer : Bytes → Option ChallengeAnswer
read_answer [] = none
read_answer (n ∷ rest) = some (record { token = take n rest; responses = drop n rest ∷ [] })

read_answer_back :
    (token : Bytes) (responses : List Bytes) (b : Bytes)
    → answer_bytes token responses ≡ some b
    → read_answer b ≡ some (record { token = token; responses = responses })
read_answer_back token [] b h = absurd (cc)
read_answer_back token (r ∷ []) b h =
    rw (sym (some-injective _ b h))
      (rw (take-append_length token r) (rw (drop-append_length token r) refl))
read_answer_back token (r ∷ q ∷ rs) b h = absurd (cc)

abbrev answer_codec : Codec ChallengeAnswer
answer_codec = record {
  to_stdvec = λ a. answer_bytes a.token a.responses;
  from_bytes = read_answer;
  from_to = λ a b h. read_answer_back a.token a.responses b h;
}

abbrev totp : Challenge
totp = of_prompt (7 ∷ 8 ∷ []) (codes "Code: ")

-- The server asks for a code and takes any answer with its token.
abbrev check_code : Option ChallengeAnswer → Option AuthOutcome
check_code none = some (challenged totp)
check_code (some a) = some (if bytes_eq a.token (7 ∷ 8 ∷ []) then allowed else denied)

abbrev path_from : Option (Bytes × Bytes) → Bytes
path_from none = codes "/"
path_from (some (authority, p)) = b'/' ∷ p

abbrev setting : Setting
setting = record {
  base64 = unary_base64;
  challenges = challenge_codec;
  answers = answer_codec;
  path_of = λ uri. path_from (strip_prefix (codes "https://") uri >>= λ r. split_once b'/' r);
  path = codes "/quish";
  max_auth_fails = 6;
  ip = v4 1;
  now = λ n. n;
  backend = λ n authorization answer. check_code answer;
  lines = λ n prompt. some (codes "12");
}

abbrev decimals : ℕ → Bytes
decimals n = if n == 2 then codes "2" else codes "4433"

abbrev target : Target
target = record { user = codes "al"; host = codes "::1"; port = 4433; path = codes "/quish" }

abbrev started : Server
started = record {
  requests = 0;
  typed = 0;
  counters = record { conn_fails = 0; limiter = default_limiter };
  channels = 0;
}

abbrev authorization : Bytes
authorization = codes "Basic x"

version_2 : version_supported (some (decimals 2)) ≡ true
unfolding version_supported trim parse_u32
version_2 = refl

path_agrees :
    setting.path_of
      (codes "https://" ++ socket_target target.host (decimals target.port) ++ target.path)
    ≡ codes "/quish"
unfolding socket_target
path_agrees = refl

types_code :
    (read_all (server setting).read totp.prompts (record started { requests = 1 })).0
    ≡ some (codes "12" ∷ [])
unfolding read_all server
types_code = refl

encodes_totp :
    encode_header unary_base64 challenge_codec totp
    ≡ some (unary_base64.encode (2 ∷ 7 ∷ 8 ∷ codes "Code: "))
unfolding encode_header
encodes_totp = refl

encodes_answer :
    encode_header unary_base64 answer_codec
      (record { token = 7 ∷ 8 ∷ []; responses = codes "12" ∷ [] })
    ≡ some (unary_base64.encode (2 ∷ 7 ∷ 8 ∷ codes "12"))
unfolding encode_header
encodes_answer = refl

open_forward_challenged_example :
    ((open_channel unary_base64 challenge_codec answer_codec decimals
        (server setting)
        target
        authorization
        started).0
      ≡ opened)
    × (open_forward unary_base64 challenge_codec answer_codec decimals
          (server setting)
          target
          authorization
          started
        ≡ (failed (rejected_status 401), record started { requests = 1 }))
open_forward_challenged_example =
    open_forward_challenged setting decimals target authorization started
      (path_agrees, version_2, omega arith) refl encodes_totp types_code encodes_answer refl

open_channel-channels_example :
    (open_channel unary_base64 challenge_codec answer_codec decimals
      (server setting)
      target
      authorization
      started).1.channels
    ≡ (if is_opened
          (open_channel unary_base64 challenge_codec answer_codec decimals
            (server setting)
            target
            authorization
            started).0
        then started.channels + 1
        else started.channels)
open_channel-channels_example = open_channel-channels setting decimals target authorization started

-- The peer that never allows, and has a new challenge for each answer.
abbrev hostile : Peer Server
hostile = record {
  exchange = λ req w. (reply_response unary_base64 challenge_codec (respond_challenge totp), w);
  read = λ p w. (some (codes "12"), w);
}

open_channel-IsBounded_example :
    IsLog unary_base64 challenge_codec answer_codec decimals hostile target authorization
      (open_channel unary_base64 challenge_codec answer_codec decimals
        (logged hostile)
        target
        authorization
        (started, [])).1.1
    × (length
          (open_channel unary_base64 challenge_codec answer_codec decimals
            (logged hostile)
            target
            authorization
            (started, [])).1.1
        ≤ 4)
open_channel-IsBounded_example =
    open_channel-IsBounded unary_base64 challenge_codec answer_codec decimals hostile target
      authorization started

-- A prompt with an echo is read up to the end of its line.
echoed :
    read_prompt none
      (record { message = []; echo = true })
      (some (98 ∷ 13 ∷ 98 ∷ 13 ∷ 10 ∷ []))
      none
    ≡ some (98 ∷ 13 ∷ 98 ∷ [])
unfolding read_prompt
echoed = refl
