-- ===== src/Session/Forward/Tests.antt =====
-- Tests of forwarding.
use quish.Base.{◌+◌, ◌*◌, ◌^◌, ◌≡◌, refl, true, false, none, some, List, [], ◌∷◌}
use quish.Server.RateLimit.{v4}
use quish.Session.Forward.{SocketAddr, forward_target, remote_bind_allowed, Park}
use quish.Session.Forward.Parked.{Event, accepts, expires, claims}

abbrev home : SocketAddr
home = record { ip = v4 (127 * 2 ^ 24 + 1); port = 8080 }

abbrev away : SocketAddr
away = record { ip = v4 (10 * 2 ^ 24 + 1); port = 8080 }

mixed_refused : forward_target true (some (home ∷ away ∷ [])) ≡ none
unfolding forward_target
mixed_refused = refl

remote_bind_privileged : remote_bind_allowed 80 (home ∷ []) ≡ false
unfolding remote_bind_allowed
remote_bind_privileged = refl

-- Two sockets of connection 7, of which the first expires, and a claim by another connection.
abbrev some_events : List Event
some_events = accepts 7 40 ∷ accepts 7 41 ∷ expires 1 ∷ claims 8 2 ∷ []

abbrev two_parked : Park
two_parked = record {
  parked =
      record { conn_ref = 2; conn_id = 7; tcp = 41 }
      ∷ record { conn_ref = 1; conn_id = 7; tcp = 40 }
      ∷ [];
  next_conn_ref = 3;
}
