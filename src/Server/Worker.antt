-- ===== src/Server/Worker.antt =====
-- quish-server/src/worker.rs: `MonitorClient` and `serve_channel`. `call` is one round of the
-- control channel; `none` is its error. What the client and the system answer is part of the input.
pub mod Requests
pub mod Sessions
pub mod Failed
mod Tests
use quish.Base.{
  ℕ, zero, suc, ◌+◌, ◌-◌, ◌*◌, ◌/◌, ◌%◌, ◌^◌, ◌≤◌, ◌<◌, min, ◌≡◌, refl, sym, ap, ◌∙◌, ◌≢◌, ◌↔◌, ◌⊎◌,
  inl, inr, Bool, true, false, not, ◌&&◌, ◌||◌, Option, none, some, List, [], ◌∷◌, ◌++◌, map,
  reverse, arith, ltb, leb, ◌==◌, if◌then◌else◌, ltb→lt, lt→ltb, ltb→ge, ge→ltb, leb→le, ==_iff,
  ==_refl, Bool-cases, Option-cases, ◌>>=◌, unwrap_or, is_some, length, get_elem?, get_or, take,
  drop, is_empty, any, all, retain, All, length-append, take-append_length, drop-append_length,
  take-append-drop, take-append_le, drop-append_le, length-take, length-drop,
}
use quish.Base.Int.{ℤ, negsuc}
use quish.Base.Text.{Bytes}
use quish.Proto.Message.{Signal, ChannelMessage, data_msg, data_err, resize, exit_status, signal}
use quish.Server.Monitor.{Request, Response, verdict, challenged, spawned, exited, failed, closed}
use quish.Session.Pump.{
  End, waiting, drained, client_gone, failed, Sent, delivered, gone, broken, Action, to_client,
  to_stdin, to_resize, to_signal, stdin_eof, Event, pump_shell, pump_exec,
}

-- `quish_proto::ChannelOpen`.
pub data ChannelOpen : Type 0 where
  shell : Bytes → ℕ → ℕ → ChannelOpen
  exec : Bytes → ChannelOpen
  forward : Bytes → ℕ → ChannelOpen
  read_file : Bytes → ChannelOpen
  write_file : Bytes → ℕ → ChannelOpen
  mk_dir : Bytes → ℕ → ChannelOpen
  remote_forward_listen : Bytes → ℕ → ChannelOpen
  remote_forward_data : ℕ → ChannelOpen

abbrev pub max_spawn_arg_len : ℕ
max_spawn_arg_len = 60 * 1024

abbrev pub spawn_arg_ok : Bytes → Bool
spawn_arg_ok arg = leb (length arg) max_spawn_arg_len

-- `Ok(())`, an error, or a pump that has not ended when its events have.
pub data Outcome : Type 0 where
  done error running : Outcome

-- What the client and the system do: whether a descriptor can be duplicated, what the pumps
-- receive, what a transfer helper writes with how each chunk was sent, the frames of an upload with
-- whether the helper still takes data, whether `send_msg` of the
-- status succeeds, `finish`, and how a forward, which makes no call, comes out.
pub record Channel : Type 0 where
  pub cloned : Bool
  pub events : List Event
  pub chunks : List (Bytes × Sent)
  pub upload : List (ChannelMessage × Bool)
  pub status : Sent
  pub finished : Bool
  pub forwarded : Outcome

-- The monitor, with the requests that it was sent, the frames that the client got, and what an
-- upload helper was given.
pub record World {ℓ} (M : Type ℓ) : Type ℓ where
  pub monitor : M
  pub requests : List Request
  pub frames : List ChannelMessage
  pub written : List Bytes

-- The frames among what a pump passed on, and the signals.
pub frames_of : List Action → List ChannelMessage
frames_of [] = []
frames_of (to_client m ∷ as') = m ∷ frames_of as'
frames_of (to_stdin d ∷ as') = frames_of as'
frames_of (to_resize c r ∷ as') = frames_of as'
frames_of (to_signal s ∷ as') = frames_of as'
frames_of (stdin_eof ∷ as') = frames_of as'

pub signals_of : List Action → List Signal
signals_of [] = []
signals_of (to_client m ∷ as') = signals_of as'
signals_of (to_stdin d ∷ as') = signals_of as'
signals_of (to_resize c r ∷ as') = signals_of as'
signals_of (to_signal s ∷ as') = s ∷ signals_of as'
signals_of (stdin_eof ∷ as') = signals_of as'

-- The loop of `run_transfer`: the end, and the chunks that were delivered.
pub send_chunks : List (Bytes × Sent) → End × List ChannelMessage
send_chunks [] = (drained, [])
send_chunks ((d, delivered) ∷ cs) = let rest = send_chunks cs in (rest.0, data_msg d ∷ rest.1)
send_chunks ((d, gone) ∷ cs) = (client_gone, [])
send_chunks ((d, broken) ∷ cs) = (failed, [])

-- The loop of `run_transfer_write`: the data, up to the first that the helper does not take.
pub helper_input : List (ChannelMessage × Bool) → List Bytes
helper_input [] = []
helper_input ((data_msg d, taken) ∷ ms) =
    let rest = helper_input ms in if taken then d ∷ rest else []
helper_input ((data_err d, taken) ∷ ms) = helper_input ms
helper_input ((resize c r, taken) ∷ ms) = helper_input ms
helper_input ((exit_status c, taken) ∷ ms) = helper_input ms
helper_input ((signal s, taken) ∷ ms) = helper_input ms

-- The session and its descriptors, when the response has as many as there must be.
pub session_of : ℕ → Option (Response × List ℕ) → Option ℕ
session_of count none = none
session_of count (some (spawned id, fds)) = if length fds == count then some id else none
session_of count (some (verdict b, fds)) = none
session_of count (some (challenged c, fds)) = none
session_of count (some (exited c, fds)) = none
session_of count (some (failed, fds)) = none
session_of count (some (closed, fds)) = none

-- `MonitorClient::reap`.
pub code_of : Option (Response × List ℕ) → ℤ
code_of (some (exited code, fds)) = code
code_of (some (verdict b, fds)) = negsuc 0
code_of (some (challenged c, fds)) = negsuc 0
code_of (some (spawned id, fds)) = negsuc 0
code_of (some (failed, fds)) = negsuc 0
code_of (some (closed, fds)) = negsuc 0
code_of none = negsuc 0

module _ {ℓ} {M : Type ℓ} (call : Request → M → Option (Response × List ℕ) × M) where
  -- `MonitorClient::call`.
  pub call_monitor : Request → World M → Option (Response × List ℕ) × World M
  call_monitor req w =
      let (response, monitor) = call req w.monitor in
      (response, record w { monitor = monitor; requests = w.requests ++ req ∷ [] })

  pub reap : ℕ → World M → ℤ × World M
  unfolding call_monitor code_of
  reap id w = let (response, w') = call_monitor (Request.reap id) w in (code_of response, w')

  pub send_signals : ℕ → List Signal → World M → World M
  unfolding call_monitor
  send_signals id [] w = w
  send_signals id (s ∷ ss) w = send_signals id ss (call_monitor (Request.signal id s) w).1

  abbrev pub send_frames : List ChannelMessage → World M → World M
  send_frames ms w = record w { frames = w.frames ++ ms }

  abbrev pub finish : Channel → World M → Outcome × World M
  finish ch w = ((if ch.finished then done else error), w)

  -- The status after the reaping: an error is returned before `finish`.
  pub send_status : Channel → ℤ → World M → Outcome × World M
  send_status ch code w = elim ch.status [
    | delivered ↦ finish ch (send_frames (exit_status code ∷ []) w)
    | gone ↦ finish ch w
    | broken ↦ (error, w)
  ]

  -- What follows each pump. An error of the pump is returned before the reaping.
  pub settle : Channel → ℕ → End → World M → Outcome × World M
  unfolding reap send_status
  settle ch id waiting w = (running, w)
  settle ch id failed w = (error, w)
  settle ch id drained w = let (code, w') = reap id w in send_status ch code w'
  settle ch id client_gone w = let (code, w') = reap id w in finish ch w'

  pub run_shell : Channel → ℕ → World M → Outcome × World M
  unfolding settle frames_of
  run_shell ch id w =
      let (end, actions) = pump_shell ch.events in
      if not ch.cloned then (error, w) else settle ch id end (send_frames (frames_of actions) w)

  -- The signals are passed on while the pump runs, all of them before its end is looked at.
  pub run_exec : Channel → ℕ → World M → Outcome × World M
  unfolding settle frames_of signals_of send_signals
  run_exec ch id w =
      let (end, actions) = pump_exec ch.events in
      settle ch id end (send_signals id (signals_of actions) (send_frames (frames_of actions) w))

  pub run_transfer : Channel → ℕ → World M → Outcome × World M
  unfolding settle send_chunks
  run_transfer ch id w =
      let (end, frames) = send_chunks ch.chunks in settle ch id end (send_frames frames w)

  -- The data of an upload goes to the helper, whose end is waited for; the client gets the status
  -- only.
  pub run_transfer_write : Channel → ℕ → World M → Outcome × World M
  unfolding reap send_status helper_input
  run_transfer_write ch id w =
      let (code, w') = reap id (record w { written = w.written ++ helper_input ch.upload }) in
      send_status ch code w'

  -- `client.spawn_..(..).await?` and what follows it, for as many descriptors as `count`.
  pub spawn : Request → ℕ → (ℕ → World M → Outcome × World M) → World M → Outcome × World M
  unfolding call_monitor session_of
  spawn req count body w =
      let (response, w') = call_monitor req w in
      elim (session_of count response) [ none ↦ (error, w') | some id ↦ body id w' ]

  -- A warning and `Ok(())` for an argument that is too long.
  abbrev pub bounded : Bytes → World M → Outcome × World M → Outcome × World M
  bounded arg w served = if not (spawn_arg_ok arg) then (done, w) else served

  pub serve_open : ℕ → ChannelOpen → Channel → World M → Outcome × World M
  unfolding spawn run_shell run_exec run_transfer run_transfer_write
  serve_open conn_id (shell t cols rows) ch w =
      bounded t w (spawn (Request.spawn_shell conn_id t) 1 (run_shell ch) w)
  serve_open conn_id (exec command) ch w =
      bounded command w (spawn (Request.spawn_exec conn_id command) 3 (run_exec ch) w)
  serve_open conn_id (forward host port) ch w = bounded host w (ch.forwarded, w)
  serve_open conn_id (remote_forward_listen bind port) ch w = bounded bind w (ch.forwarded, w)
  serve_open conn_id (remote_forward_data conn_ref) ch w = (ch.forwarded, w)
  serve_open conn_id (read_file path) ch w =
      bounded path w (spawn (Request.spawn_transfer conn_id path) 1 (run_transfer ch) w)
  serve_open conn_id (write_file path mode) ch w =
      bounded path w
        (spawn (Request.spawn_transfer_write conn_id path mode) 2 (run_transfer_write ch) w)
  serve_open conn_id (mk_dir path mode) ch w =
      bounded path w (spawn (Request.spawn_mkdir conn_id path mode) 1 (run_transfer ch) w)
