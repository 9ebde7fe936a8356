-- ===== src/Session/Forward/Pairing.antt =====
-- The sockets of remote forwards, from the listeners of all connections to their data channels.
-- A round of a listener, a data channel that opens, both with their connection, or a timeout.
mod Tests
use quish.Base.{
  ℕ, ◌+◌, ◌≤◌, ◌≡◌, sym, inl, inr, ◌&&◌, Option, none, some, List, [], ◌∷◌, arith, leb, ◌==◌,
  if◌then◌else◌, ==_iff, Bool-cases, Option-cases, length,
}
use mathlib.Core.Option.{some-injective}
use quish.Session.Pump.{Sent, delivered, gone, broken}
use quish.Session.Forward.{
  Park, ParkedConn, park_conn, take_conn, expire, without, find_ref, max_parked,
}
use quish.Session.Forward.Listen.{
  ListenEvent, accepted, accept_failed, client_frame, client_closed, signalled, listen_step,
  DataChannel, closed, bridged, serve_remote_forward_data,
}

pub data Event : Type 0 where
  listener : ℕ → ListenEvent → Event
  data_channel : ℕ → ℕ → Event
  times_out : ℕ → Event

-- The table, with the sockets that were accepted and those that were bridged, each with the
-- connection whose listener or data channel it was.
pub record World : Type 0 where
  pub park : Park
  pub accepted_by : List (ℕ × ℕ)
  pub bridged_to : List (ℕ × ℕ)

abbrev accepts : ℕ → ListenEvent → List (ℕ × ℕ) → List (ℕ × ℕ)
accepts conn_id (accepted tcp sent) xs = (conn_id, tcp) ∷ xs
accepts conn_id accept_failed xs = xs
accepts conn_id client_frame xs = xs
accepts conn_id client_closed xs = xs

abbrev bridges : ℕ → DataChannel → List (ℕ × ℕ) → List (ℕ × ℕ)
bridges conn_id closed xs = xs
bridges conn_id (bridged tcp) xs = (conn_id, tcp) ∷ xs

pub step : World → Event → World
step w (listener conn_id e) = record w {
  park = (listen_step conn_id e w.park).1;
  accepted_by = accepts conn_id e w.accepted_by;
}
step w (data_channel conn_id conn_ref) =
    let (channel, park) = serve_remote_forward_data conn_id conn_ref w.park in
    record w { park = park; bridged_to = bridges conn_id channel w.bridged_to }
step w (times_out conn_ref) = record w { park = expire conn_ref w.park }

pub run : World → List Event → World
run w [] = w
run w (e ∷ es) = run (step w e) es

module _ (conn_id tcp : ℕ) where
  abbrev one : ℕ → ℕ → ℕ
  one c t = if (c == conn_id) && (t == tcp) then 1 else 0

  abbrev pub times : List (ℕ × ℕ) → ℕ
  times [] = 0
  times ((c, t) ∷ xs) = one c t + times xs

  abbrev pub waits : List ParkedConn → ℕ
  waits [] = 0
  waits (p ∷ ps) = one p.conn_id p.tcp + waits ps

  waits-without : (r : ℕ) (ps : List ParkedConn) → waits (without r ps) ≤ waits ps
  waits-without r [] = omega arith
  waits-without r (p ∷ ps) = ground (arith, waits-without r ps)

  waits-found :
      (r : ℕ) (ps : List ParkedConn) {p : ParkedConn}
      → find_ref r ps ≡ some p
      → waits (without r ps) + one p.conn_id p.tcp ≤ waits ps
  waits-found r [] h = absurd (cc)
  waits-found r (q ∷ ps) h = elim (Bool-cases (q.conn_ref == r)) [
    | inl e ↦
        let same = some-injective _ _ (rw e at h) in
        rw e (rw (sym same) (omega (arith, waits-without r ps)))
    | inr e ↦ rw e (omega (arith, waits-found r ps (rw e at h)))
  ]

  -- No socket is bridged or waiting more often than it was accepted.
  abbrev pub IsPaired : World → Type 0
  IsPaired w = times w.bridged_to + waits w.park.parked ≤ times w.accepted_by

  parks : (c t : ℕ) (s : Park) → waits (park_conn c t s).1.parked ≤ one c t + waits s.parked
  unfolding park_conn
  parks c t s = elim (Bool-cases (leb max_parked (length s.parked))) [
    | inl e ↦ rw (park_conn, e) (omega arith)
    | inr e ↦ rw (park_conn, e) (omega (arith, waits-without s.next_conn_ref s.parked))
  ]

  abbrev bridged_count : ℕ → Option ℕ → ℕ
  bridged_count c none = 0
  bridged_count c (some t) = one c t

  takes :
      (c r : ℕ) (s : Park)
      → bridged_count c (take_conn c r s).0 + waits (take_conn c r s).1.parked ≤ waits s.parked
  unfolding take_conn
  takes c r s = elim (Option-cases (find_ref r s.parked)) [
    | inl e ↦ rw (take_conn, e) (omega arith)
    | inr (p, e) ↦ elim (Bool-cases (p.conn_id == c)) [
      | inl e' ↦
          let own = (==_iff p.conn_id c).0 e' in
          rw (take_conn, e, e') (rw (sym own) (omega (arith, waits-found r s.parked e)))
      | inr e' ↦ rw (take_conn, e, e') (omega arith)
    ]
  ]

  signals :
      (c r : ℕ) (sent : Sent) (s : Park) → waits (signalled c r sent s).1.parked ≤ waits s.parked
  unfolding signalled
  signals c r delivered s = omega arith
  signals c r gone s = omega (arith, takes c r s)
  signals c r broken s = omega arith

  listens : (c : ℕ) (e : ListenEvent) (w : World) → IsPaired w → IsPaired (step w (listener c e))
  unfolding step listen_step
  listens c (accepted t sent) w h = elim (Option-cases (park_conn c t w.park).0) [
    | inl e ↦ rw (step, listen_step, e) (omega (arith, h, parks c t w.park))
    | inr (r, e) ↦
        rw (step, listen_step, e)
          (omega (arith, h, parks c t w.park, signals c r sent (park_conn c t w.park).1))
  ]
  listens c accept_failed w h = h
  listens c client_frame w h = h
  listens c client_closed w h = h

  opens : (c r : ℕ) (w : World) → IsPaired w → IsPaired (step w (data_channel c r))
  unfolding step serve_remote_forward_data
  opens c r w h = elim (Option-cases (take_conn c r w.park).0) [
    | inl e ↦ rw (step, serve_remote_forward_data, e) (omega (arith, h, rw e at (takes c r w.park)))
    | inr (t, e) ↦
        rw (step, serve_remote_forward_data, e) (omega (arith, h, rw e at (takes c r w.park)))
  ]

  step-IsPaired : (e : Event) (w : World) → IsPaired w → IsPaired (step w e)
  unfolding step expire
  step-IsPaired (listener c e) w h = listens c e w h
  step-IsPaired (data_channel c r) w h = opens c r w h
  step-IsPaired (times_out r) w h = omega (arith, h, waits-without r w.park.parked)

  -- However the listeners, the data channels and the timeouts of all connections interleave: for a
  -- connection and a socket, that socket is bridged to data channels of that connection, and waits
  -- for one, no more often in all than it was accepted on a listener of the same connection.
  pub run-IsPaired : (w : World) (es : List Event) → IsPaired w → IsPaired (run w es)
  unfolding run
  run-IsPaired w [] h = h
  run-IsPaired w (e ∷ es) h = run-IsPaired (step w e) es (step-IsPaired e w h)
