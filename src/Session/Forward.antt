-- ===== src/Session/Forward.antt =====
-- quish-server/src/session.rs: which addresses a forward may reach or listen on, and the sockets
-- that wait for their data channel. Name resolution and the sockets themselves are outside.
pub mod Policy
pub mod Parked
pub mod Listen
pub mod Pairing
mod Tests
use quish.Base.{
  ℕ, zero, suc, ◌+◌, ◌-◌, ◌*◌, ◌/◌, ◌%◌, ◌^◌, ◌≤◌, ◌<◌, min, ◌≡◌, refl, sym, ap, ◌∙◌, ◌≢◌, ◌↔◌, ◌⊎◌,
  inl, inr, Bool, true, false, not, ◌&&◌, ◌||◌, Option, none, some, List, [], ◌∷◌, ◌++◌, map,
  reverse, arith, ltb, leb, ◌==◌, if◌then◌else◌, ltb→lt, lt→ltb, ltb→ge, ge→ltb, leb→le, ==_iff,
  ==_refl, Bool-cases, Option-cases, ◌>>=◌, unwrap_or, is_some, length, get_elem?, get_or, take,
  drop, is_empty, any, all, retain, All, length-append, take-append_length, drop-append_length,
  take-append-drop, take-append_le, drop-append_le, length-take, length-drop,
}
use quish.Server.RateLimit.{IpAddr, v4, v6}

pub record SocketAddr : Type 0 where
  pub ip : IpAddr
  pub port : ℕ

-- `IpAddr::is_loopback`: 127.0.0.0/8 and ::1.
abbrev pub is_loopback : IpAddr → Bool
is_loopback (v4 a) = a / 2 ^ 24 == 127
is_loopback (v6 a) = a == 1

abbrev pub loopback_only : List SocketAddr → Bool
loopback_only addrs = all (λ a. is_loopback a.ip) addrs

-- `serve_forward` up to the connection: the address that it connects to. `resolved` is what
-- `lookup_host` gave, `none` for its error.
pub forward_target : Bool → Option (List SocketAddr) → Option SocketAddr
forward_target allow_forward none = none
forward_target allow_forward (some addrs) =
    if not allow_forward
    then none
    else if is_empty addrs || not (loopback_only addrs)
    then none
    else get_elem? addrs 0

pub remote_bind_allowed : ℕ → List SocketAddr → Bool
remote_bind_allowed port addrs = leb 1024 port && not (is_empty addrs) && loopback_only addrs

-- `serve_remote_forward_listen` up to the listener: the address that it binds.
pub listen_target : Bool → ℕ → Option (List SocketAddr) → Option SocketAddr
unfolding remote_bind_allowed
listen_target allow_remote_forward port none = none
listen_target allow_remote_forward port (some addrs) =
    if not allow_remote_forward
    then none
    else if not (remote_bind_allowed port addrs)
    then none
    else get_elem? addrs 0

abbrev pub max_parked : ℕ
max_parked = 128

-- A parked connection with its `conn_ref`; a socket by its number.
pub record ParkedConn : Type 0 where
  pub conn_ref : ℕ
  pub conn_id : ℕ
  pub tcp : ℕ

-- `PARKED` and `NEXT_CONN_REF`.
pub record Park : Type 0 where
  pub parked : List ParkedConn
  pub next_conn_ref : ℕ

pub initial : Park
initial = record { parked = []; next_conn_ref = 1 }

abbrev pub without : ℕ → List ParkedConn → List ParkedConn
without conn_ref = retain (λ p. not (p.conn_ref == conn_ref))

-- `HashMap::get`.
abbrev pub find_ref : ℕ → List ParkedConn → Option ParkedConn
find_ref conn_ref [] = none
find_ref conn_ref (p ∷ ps) = if p.conn_ref == conn_ref then some p else find_ref conn_ref ps

-- The reference is used up whether or not the table has room.
unfoldable pub park_conn : ℕ → ℕ → Park → Option ℕ × Park
park_conn conn_id tcp s =
    let conn_ref = s.next_conn_ref in
    let next = (s.next_conn_ref + 1) % 2 ^ 64 in
    if leb max_parked (length s.parked) then (none, record s { next_conn_ref = next }) else (
      some conn_ref,
      record {
        parked =
            record { conn_ref = conn_ref; conn_id = conn_id; tcp = tcp }
            ∷ without conn_ref s.parked;
        next_conn_ref = next;
      },
    )

-- The task that `park_conn` leaves behind, when its time has come.
unfoldable pub expire : ℕ → Park → Park
expire conn_ref s = record s { parked = without conn_ref s.parked }

abbrev pub owned_by : ℕ → Option ParkedConn → Option ℕ
owned_by conn_id none = none
owned_by conn_id (some p) = if p.conn_id == conn_id then some p.tcp else none

unfoldable pub take_conn : ℕ → ℕ → Park → Option ℕ × Park
take_conn conn_id conn_ref s =
    let found = owned_by conn_id (find_ref conn_ref s.parked) in
    (found, (if is_some found then record s { parked = without conn_ref s.parked } else s))
