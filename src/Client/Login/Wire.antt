-- ===== src/Client/Login/Wire.antt =====
-- quish-server/src/transport.rs as a client sees it: `respond`, `respond_challenge`, and
-- `handle_request` behind the `Peer` of a login.
-- The server that a client on a connection of its own meets: how many requests it has had, the
-- lines its user has typed, its counters, and the channels it serves.
use quish.Base.{ℕ, ◌+◌, Bool, true, false, Option, none, some, if◌then◌else◌}
use quish.Base.Text.{Bytes}
use quish.Proto.Frame.{Codec}
use quish.Proto.Message.{Challenge, ChallengeAnswer, encode_header}
use quish.Auth.Types.{Base64, Prompt}
use quish.Client.Login.{
  ConnectRequest, Response, Peer, Step, finished, asked, Opened, opened, failed,
}
use quish.Server.RateLimit.{IpAddr}
use quish.Server.Transport.{
  Incoming, Reply, respond, respond_challenge, Status, ok, not_found, upgrade_required,
  unauthorized, AuthOutcome, handle_request, Counters,
}

pub record Server : Type 0 where
  pub requests : ℕ
  pub typed : ℕ
  pub counters : Counters
  pub channels : ℕ

-- What reaches the client of `respond` and of `respond_challenge`.
unfoldable pub status_code : Status → ℕ
status_code ok = 200
status_code not_found = 404
status_code upgrade_required = 426
status_code unauthorized = 401

module _ (base64 : Base64) (challenges : Codec Challenge) where
  unfoldable pub reply_response : Reply → Option Response
  unfolding status_code
  reply_response (respond status) = some (record { status = status_code status; challenge = none })
  reply_response (respond_challenge c) = elim (encode_header base64 challenges c) [
    | none ↦ none
    | some v ↦ some (record { status = status_code unauthorized; challenge = some v })
  ]

-- What h3 gives the server of a request. `path_of` is the path of a URI.
abbrev pub received : (Bytes → Bytes) → ConnectRequest → Incoming
received path_of req = record {
  is_connect = true;
  has_protocol = true;
  path = path_of req.uri;
  version = some req.version;
  authorization = some req.authorization;
  challenge_response = req.challenge_response;
}

-- The server's secret path and cap, the client's address, and by the number of a request its time
-- and what the backend answers; by the number of a line, what the user types.
pub record Setting : Type 0 where
  pub base64 : Base64
  pub challenges : Codec Challenge
  pub answers : Codec ChallengeAnswer
  pub path_of : Bytes → Bytes
  pub path : Bytes
  pub max_auth_fails : ℕ
  pub ip : IpAddr
  pub now : ℕ → ℕ
  pub backend : ℕ → Option Bytes → Option ChallengeAnswer → Option AuthOutcome
  pub lines : ℕ → Prompt → Option Bytes

unfoldable pub served_by : Setting → ConnectRequest → Server → (Reply × Bool) × Counters
served_by s req w =
    handle_request s.base64 s.answers s.path s.max_auth_fails s.ip (s.now w.requests)
      (s.backend w.requests) (received s.path_of req) w.counters

unfoldable pub server : Setting → Peer Server
unfolding served_by reply_response
server s = record {
  exchange = λ req w.
      let ((reply, served), counters) = served_by s req w in
      (
        reply_response s.base64 s.challenges reply,
        record {
          requests = w.requests + 1;
          typed = w.typed;
          counters = counters;
          channels = (if served then w.channels + 1 else w.channels);
        },
      );
  read = λ p w. (s.lines w.typed p, record w { typed = w.typed + 1 });
}

abbrev pub is_opened : Opened → Bool
is_opened opened = true
is_opened (failed e) = false

abbrev pub is_opening : Step → Bool
is_opening (finished end) = is_opened end
is_opening (asked c) = false
