-- ===== src/Server/Transport/Attempts.antt =====
-- How many attempts fail on one connection, whose requests are handled concurrently.
use quish.Base.{
  ℕ, ◌+◌, ◌-◌, ◌^◌, ◌≤◌, ◌<◌, ◌≡◌, Bool, true, false, List, [], ◌∷◌, arith, leb, ◌==◌,
  if◌then◌else◌,
}
use quish.Base.Text.{Bytes}
use quish.Proto.Frame.{Codec}
use quish.Proto.Message.{ChallengeAnswer}
use quish.Auth.Types.{Base64}
use quish.Server.RateLimit.{IpAddr}
use quish.Server.Transport.{
  max_channels_per_conn, AuthOutcome, allowed, denied, challenged, Incoming, rejected, attempt,
  gate, Counters, conclude,
}

-- A request reads the counter when it starts and adds to it when its attempt has ended; others may
-- do so in between. The transport lets no more of them be open than the stream limit says.
pub data Event : Type 0 where
  starts : Incoming → Event
  ends : ℕ → AuthOutcome → Event

-- The counters, the attempts under way, and those that ended with a denial.
pub record Conn : Type 0 where
  pub counters : Counters
  pub in_flight : ℕ
  pub denials : ℕ

abbrev is_denied : AuthOutcome → Bool
is_denied allowed = false
is_denied denied = true
is_denied (challenged c) = false

module _ (base64 : Base64) (postcard : Codec ChallengeAnswer) (path : Bytes) (max_auth_fails : ℕ)
    (ip : IpAddr) where
  pub step : Conn → Event → Conn
  step c (starts req) =
      if leb max_channels_per_conn c.in_flight
      then c
      else elim (gate base64 postcard path max_auth_fails c.counters.conn_fails req) [
        | rejected status ↦ c
        | attempt authorization answer ↦ record c { in_flight = c.in_flight + 1 }
      ]
  step c (ends now outcome) = if c.in_flight == 0 then c else record {
    counters = (conclude ip now outcome c.counters).1;
    in_flight = c.in_flight - 1;
    denials = (if is_denied outcome then c.denials + 1 else c.denials);
  }

  pub run : Conn → List Event → Conn
  run c [] = c
  run c (e ∷ es) = run (step c e) es

-- The counter counts the denials, and leaves room for what is under way.
abbrev pub Bounded : ℕ → Conn → Type 0
Bounded max_auth_fails c =
    (c.counters.conn_fails ≡ c.denials)
    × (c.in_flight ≤ max_channels_per_conn)
    × (c.denials + c.in_flight < max_auth_fails + max_channels_per_conn)

module _ (base64 : Base64) (postcard : Codec ChallengeAnswer) (path : Bytes) (max_auth_fails : ℕ)
    (ip : IpAddr) where
  step-Bounded :
      (c : Conn) (e : Event)
      → max_auth_fails + max_channels_per_conn ≤ 2 ^ 32
      → Bounded max_auth_fails c
      → Bounded max_auth_fails (step base64 postcard path max_auth_fails ip c e)
  unfolding step gate conclude
  step-Bounded c (starts req) m (k, f, d) = ground arith
  step-Bounded c (ends now allowed) m (k, f, d) = ground arith
  step-Bounded c (ends now denied) m (k, f, d) = ground arith
  step-Bounded c (ends now (challenged x)) m (k, f, d) = ground arith

  -- From a connection within these bounds, as a new one is, and with a cap that leaves room in the
  -- counter: however its requests overlap, within the limit of sixteen, fewer attempts are denied
  -- than the cap and that limit together, and the counter is their number, so that it never wraps.
  pub run-Bounded :
      (c : Conn) (es : List Event)
      → max_auth_fails + max_channels_per_conn ≤ 2 ^ 32
      → Bounded max_auth_fails c
      → Bounded max_auth_fails (run base64 postcard path max_auth_fails ip c es)
  unfolding run
  run-Bounded c [] m h = h
  run-Bounded c (e ∷ es) m h =
      run-Bounded (step base64 postcard path max_auth_fails ip c e) es m (step-Bounded c e m h)
