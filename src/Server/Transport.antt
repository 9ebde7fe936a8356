-- ===== src/Server/Transport.antt =====
-- quish-server/src/transport.rs: `handle_request` and `Backend::authenticate`.
-- quinn and h3 are outside: a request is what `resolve_request` gives, with its headers as strings.
pub mod Attempts
pub mod Served
mod Tests
use quish.Base.{
  ℕ, zero, suc, ◌+◌, ◌-◌, ◌*◌, ◌/◌, ◌%◌, ◌^◌, ◌≤◌, ◌<◌, min, ◌≡◌, refl, sym, ap, ◌∙◌, ◌≢◌, ◌↔◌, ◌⊎◌,
  inl, inr, Bool, true, false, not, ◌&&◌, ◌||◌, Option, none, some, List, [], ◌∷◌, ◌++◌, map,
  reverse, arith, ltb, leb, ◌==◌, if◌then◌else◌, ltb→lt, lt→ltb, ltb→ge, ge→ltb, leb→le, ==_iff,
  ==_refl, Bool-cases, Option-cases, ◌>>=◌, unwrap_or, is_some, length, get_elem?, get_or, take,
  drop, any, all, retain, All, length-append, take-append_length, drop-append_length,
  take-append-drop, take-append_le, drop-append_le, length-take, length-drop,
}
use quish.Base.Text.{Bytes, bytes_eq}
use quish.Proto.Frame.{Codec}
use quish.Proto.Message.{Challenge, ChallengeAnswer, version_supported, decode_header}
use quish.Auth.Types.{
  Base64, Token, ChallengeState, ChallengeResponse, ConnInfo, Verdict, allow, challenge, deny,
}
use quish.Auth.Registry.{Registry}
use quish.Auth.Registry
use quish.Server.Challenges.{ChallengeStore}
use quish.Server.Challenges
use quish.Server.RateLimit.{IpAddr, RateLimiter, record_failure, record_success}

pub data AuthOutcome : Type 0 where
  allowed denied : AuthOutcome
  challenged : Challenge → AuthOutcome

-- `max_concurrent_bidi_streams`.
abbrev pub max_channels_per_conn : ℕ
max_channels_per_conn = 16

-- `Backend::authenticate` in dev mode: the outcome, the challenges left, and the time of return.
module _ (base64 : Base64) (postcard : Codec Token) where
  pub resume :
      ℕ → Option ChallengeAnswer → ℕ → ChallengeStore → Option ChallengeResponse × ChallengeStore
  resume conn_id none now store = (none, store)
  resume conn_id (some ans) now store =
      let (parked, rest) = Challenges.take conn_id ans.token now store in
      (
        elim parked [
          | none ↦ none
          | some state ↦ some (record { state = state; responses = ans.responses })
        ],
        rest,
      )

  pub settle : ℕ → ℕ → Verdict → ChallengeStore → AuthOutcome × ChallengeStore
  settle conn_id now (allow user) store = (allowed, store)
  settle conn_id now (challenge state prompts) store = (
    challenged (record { token = state.token; prompts = prompts }),
    Challenges.insert conn_id state now store,
  )
  settle conn_id now deny store = (denied, store)

  pub dev_authenticate :
      Registry
      → ℕ
      → Option Bytes
      → Option ChallengeAnswer
      → ConnInfo
      → ℕ
      → ℕ
      → ChallengeStore
      → (AuthOutcome × ChallengeStore) × ℕ
  unfolding resume settle
  dev_authenticate reg conn_id authorization answer conn started finished store =
      let (resumed, rest) = resume conn_id answer started store in
      let asking = if is_some answer then record conn { challenge = resumed } else conn in
      let (verdict, returned) =
        Registry.authenticate base64 postcard reg authorization asking started finished in
      (settle conn_id returned verdict rest, returned)

-- The same for the worker: `reply` is what the monitor answered, `none` if the call failed.
pub privsep_authenticate : Option AuthOutcome → ℕ → ℕ → ℕ → AuthOutcome × ℕ
privsep_authenticate reply fail_delay started finished =
    let floored = if ltb finished (started + fail_delay) then started + fail_delay else finished in
    elim (unwrap_or reply denied) [
      | allowed ↦ (allowed, finished)
      | denied ↦ (denied, floored)
      | challenged c ↦ (challenged c, floored)
    ]

pub record Incoming : Type 0 where
  pub is_connect : Bool
  pub has_protocol : Bool
  pub path : Bytes
  pub version : Option Bytes
  pub authorization : Option Bytes
  pub challenge_response : Option Bytes

pub data Status : Type 0 where
  ok not_found upgrade_required unauthorized : Status

pub data Reply : Type 0 where
  respond : Status → Reply
  respond_challenge : Challenge → Reply

-- What a request comes to before an attempt: an answer at once, or an attempt with these headers.
pub data Gate : Type 0 where
  rejected : Status → Gate
  attempt : Option Bytes → Option ChallengeAnswer → Gate

abbrev pub is_quish : Bytes → Incoming → Bool
is_quish path req = req.is_connect && req.has_protocol && bytes_eq req.path path

unfoldable pub gate : Base64 → Codec ChallengeAnswer → Bytes → ℕ → ℕ → Incoming → Gate
gate base64 postcard path max_auth_fails conn_fails req =
    if not (is_quish path req)
    then rejected not_found
    else if not (version_supported req.version)
    then rejected upgrade_required
    else if leb max_auth_fails conn_fails
    then rejected unauthorized
    else attempt req.authorization (req.challenge_response >>= λ v. decode_header base64 postcard v)

-- The counter of the connection, an `AtomicU32`, and the limiter that all connections share.
pub record Counters : Type 0 where
  pub conn_fails : ℕ
  pub limiter : RateLimiter

-- What follows the attempt: the answer, whether the channel is served, and the counters.
unfoldable pub conclude : IpAddr → ℕ → AuthOutcome → Counters → (Reply × Bool) × Counters
conclude ip now denied k = (
  (respond unauthorized, false),
  record { conn_fails = (k.conn_fails + 1) % 2 ^ 32; limiter = record_failure ip now k.limiter },
)
conclude ip now (challenged c) k = ((respond_challenge c, false), k)
conclude ip now allowed k =
    ((respond ok, true), record k { limiter = record_success ip now k.limiter })

-- One request from its start to its end. `backend` is `Backend::authenticate` under the deadline
-- of `timeout`, `none` when that passes.
unfoldable pub handle_request :
    Base64
    → Codec ChallengeAnswer
    → Bytes
    → ℕ
    → IpAddr
    → ℕ
    → (Option Bytes → Option ChallengeAnswer → Option AuthOutcome)
    → Incoming
    → Counters
    → (Reply × Bool) × Counters
unfolding gate conclude
handle_request base64 postcard path max_auth_fails ip now backend req k =
    elim (gate base64 postcard path max_auth_fails k.conn_fails req) [
      | rejected status ↦ ((respond status, false), k)
      | attempt authorization answer ↦
          conclude ip now (unwrap_or (backend authorization answer) denied) k
    ]
