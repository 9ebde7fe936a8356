-- ===== src/Session/Forward/Listen.antt =====
-- quish-server/src/session.rs: the accept loop of `serve_remote_forward_listen`, and
-- `serve_remote_forward_data` up to its bridge.
use quish.Base.{ℕ, none, some, List, [], ◌∷◌}
use quish.Session.Pump.{Sent, delivered, gone, broken}
use quish.Session.Forward.{Park, park_conn, take_conn}

-- What wakes the loop: a connection on the listener, with what then came of `send_msg`, an error
-- of `accept`, a frame of the client, or the end of the frames.
pub data ListenEvent : Type 0 where
  accepted : ℕ → Sent → ListenEvent
  accept_failed client_frame client_closed : ListenEvent

pub data Turn : Type 0 where
  listening finished failed : Turn

-- After `send_msg(AcceptedSignal)`.
unfoldable pub signalled : ℕ → ℕ → Sent → Park → (Turn × List ℕ) × Park
signalled conn_id conn_ref delivered s = ((listening, conn_ref ∷ []), s)
signalled conn_id conn_ref gone s = ((finished, []), (take_conn conn_id conn_ref s).1)
signalled conn_id conn_ref broken s = ((failed, []), s)

-- One round: how it goes on, the references that the client was told, and the table.
unfoldable pub listen_step : ℕ → ListenEvent → Park → (Turn × List ℕ) × Park
unfolding signalled
listen_step conn_id (accepted tcp sent) s =
    let (parked, s1) = park_conn conn_id tcp s in
    elim parked [
      | none ↦ ((listening, []), s1)
      | some conn_ref ↦ signalled conn_id conn_ref sent s1
    ]
listen_step conn_id accept_failed s = ((finished, []), s)
listen_step conn_id client_frame s = ((listening, []), s)
listen_step conn_id client_closed s = ((finished, []), s)

-- A data channel is closed at once, or bridged to a socket.
pub data DataChannel : Type 0 where
  closed : DataChannel
  bridged : ℕ → DataChannel

unfoldable pub serve_remote_forward_data : ℕ → ℕ → Park → DataChannel × Park
serve_remote_forward_data conn_id conn_ref s =
    let (taken, s1) = take_conn conn_id conn_ref s in
    (elim taken [ none ↦ closed | some tcp ↦ bridged tcp ], s1)
