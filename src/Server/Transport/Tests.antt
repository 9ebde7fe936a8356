-- ===== src/Server/Transport/Tests.antt =====
-- Tests of the requests of a connection.
use quish.Base.{
  ◌<◌, ◌≡◌, refl, sym, ap, ◌↔◌, true, false, Option, none, some, List, [], ◌∷◌, arith, ◌>>=◌,
}
use mathlib.Core.Option.{some-injective}
use quish.Base.Text.{Bytes, codes, trim, parse_u32}
use quish.Samples.{unary_base64}
use quish.Proto.Frame.{Codec}
use quish.Proto.Message.{ChallengeAnswer, version_supported, decode_header}
use quish.Server.RateLimit.{v4, default_limiter}
use quish.Server.Transport.{
  AuthOutcome, allowed, denied, Incoming, respond, not_found, upgrade_required, is_quish, gate,
  Counters, handle_request,
}
use quish.Server.Transport.Served.{handle_request_served}
use quish.Server.Transport.Attempts.{Event, starts, ends, Conn, Bounded, run, run-Bounded}

-- A codec that knows the answers without responses, which it writes as their tokens.
abbrev written : Bytes → List Bytes → Option Bytes
written token [] = some token
written token (_ ∷ _) = none

abbrev answer_of : Bytes → ChallengeAnswer
answer_of token = record { token = token; responses = [] }

written_back :
    (token : Bytes) (responses : List Bytes) (b : Bytes)
    → written token responses ≡ some b
    → some (answer_of b) ≡ some (record { token = token; responses = responses })
written_back token [] b h = ap (λ t. some (answer_of t)) (sym (some-injective token b h))
written_back token (r ∷ rs) b h = absurd (cc)

abbrev answer_codec : Codec ChallengeAnswer
answer_codec = record {
  to_stdvec = λ a. written a.token a.responses;
  from_bytes = λ b. some (answer_of b);
  from_to = λ a b h. written_back a.token a.responses b h;
}

abbrev request : Incoming
request = record {
  is_connect = true;
  has_protocol = true;
  path = codes "/quish";
  version = some (codes "2");
  authorization = some (codes "Basic x");
  challenge_response = none;
}

abbrev fresh : Counters
fresh = record { conn_fails = 0; limiter = default_limiter }

abbrev accept : Option Bytes → Option ChallengeAnswer → Option AuthOutcome
accept authorization answer = some allowed

module _ (postcard : Codec ChallengeAnswer) where
  wrong_path :
      handle_request unary_base64 postcard (codes "/other") 6 (v4 1) 0 accept request fresh
      ≡ ((respond not_found, false), fresh)
  unfolding handle_request gate
  wrong_path = refl

  old_version :
      handle_request unary_base64 postcard
        (codes "/quish")
        6
        (v4 1)
        0
        accept
        (record request { version = some (codes "1") })
        fresh
      ≡ ((respond upgrade_required, false), fresh)
  unfolding handle_request gate version_supported trim parse_u32
  old_version = refl

handle_request_served_example :
    ((handle_request unary_base64 answer_codec (codes "/quish") 6 (v4 1) 0 accept request fresh).0.1
      ≡ true)
    ↔ ((is_quish (codes "/quish") request ≡ true)
        × (version_supported request.version ≡ true)
        × (fresh.conn_fails < 6)
        × (accept request.authorization
              (request.challenge_response >>= λ v. decode_header unary_base64 answer_codec v)
            ≡ some allowed))
handle_request_served_example =
    handle_request_served unary_base64 answer_codec (codes "/quish") 6 (v4 1) 0 accept request fresh

abbrev new_conn : Conn
new_conn = record { counters = fresh; in_flight = 0; denials = 0 }

-- Two attempts overlap, and both fail.
abbrev overlapping : List Event
overlapping = starts request ∷ starts request ∷ ends 5 denied ∷ ends 6 denied ∷ []

run-Bounded_example :
    Bounded 6 (run unary_base64 answer_codec (codes "/quish") 6 (v4 1) new_conn overlapping)
run-Bounded_example =
    run-Bounded unary_base64 answer_codec (codes "/quish") 6 (v4 1) new_conn overlapping
      (omega arith) (refl, omega arith, omega arith)
