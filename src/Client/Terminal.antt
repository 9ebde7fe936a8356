-- ===== src/Client/Terminal.antt =====
-- quish-client/src/terminal.rs: `run_channel`, the pump between the user's terminal and a channel.
-- An event of its `select!` comes with whether the write that it leads to succeeds.
pub mod Output
pub mod Closed
mod Tests
use quish.Base.{
  ℕ, zero, suc, ◌+◌, ◌-◌, ◌*◌, ◌/◌, ◌%◌, ◌^◌, ◌≤◌, ◌<◌, min, ◌≡◌, refl, sym, ap, ◌∙◌, ◌≢◌, ◌↔◌, ◌⊎◌,
  inl, inr, Bool, true, false, not, ◌&&◌, ◌||◌, Option, none, some, List, [], ◌∷◌, ◌++◌, map,
  reverse, arith, ltb, leb, ◌==◌, if◌then◌else◌, ltb→lt, lt→ltb, ltb→ge, ge→ltb, leb→le, ==_iff,
  ==_refl, Bool-cases, Option-cases, ◌>>=◌, unwrap_or, is_some, length, get_elem?, get_or, take,
  drop, is_empty, any, all, retain, All, length-append, take-append_length, drop-append_length,
  take-append-drop, take-append_le, drop-append_le, length-take, length-drop,
}
use quish.Base.Int.{ℤ, pos, negsuc}
use quish.Base.Text.{Bytes}
use quish.Proto.Message.{
  Signal, int, quit, ChannelMessage, data_msg, data_err, resize, exit_status, signal,
}

pub data Event : Type 0 where
  frame : Option ChannelMessage → Bool → Event
  chunk : Option Bytes → Bool → Event
  window : ℕ → ℕ → Bool → Event
  interrupt quitting : Bool → Event

-- What the pump does. `finish` ends the sending half.
pub data Action : Type 0 where
  to_server : ChannelMessage → Action
  to_stdout to_stderr : Bytes → Action
  finish : Action

-- `waiting` is a loop that goes on, `stopped` an error.
pub data End : Type 0 where
  waiting stopped : End
  exited : ℤ → End

-- `send.is_some()`, and `stdin_done`.
pub record Pump : Type 0 where
  pub can_send : Bool
  pub stdin_done : Bool

abbrev pub Step : Type 0
Step = (End × List Action) × Pump

abbrev act : List Action → Bool → Pump → Step
act actions succeeds p = if succeeds then ((waiting, actions), p) else ((stopped, []), p)

-- `send_frame(&mut send, msg).await?`.
unfoldable pub send_frame : ChannelMessage → Bool → Pump → Step
send_frame msg succeeds p =
    if p.can_send then act (to_server msg ∷ []) succeeds p else ((waiting, []), p)

unfoldable pub on_frame : ChannelMessage → Bool → Pump → Step
on_frame (data_msg d) succeeds p = act (to_stdout d ∷ []) succeeds p
on_frame (data_err d) succeeds p = act (to_stderr d ∷ []) succeeds p
on_frame (exit_status code) succeeds p = ((exited code, []), p)
on_frame (resize cols rows) succeeds p = ((waiting, []), p)
on_frame (signal s) succeeds p = ((waiting, []), p)

abbrev end_stdin : Pump → Step
end_stdin p = (
  (waiting, (if p.can_send then finish ∷ [] else [])),
  record { can_send = false; stdin_done = true },
)

-- One round of the loop. A branch whose handler is absent, or whose guard is off, has no events.
unfoldable pub step : Bool → Event → Pump → Step
unfolding send_frame on_frame
step interactive (frame none succeeds) p = ((exited (negsuc 0), []), p)
step interactive (frame (some msg) succeeds) p = on_frame msg succeeds p
step interactive (chunk none succeeds) p = if p.stdin_done then ((waiting, []), p) else end_stdin p
step interactive (chunk (some bytes) succeeds) p =
    if p.stdin_done then ((waiting, []), p) else send_frame (data_msg bytes) succeeds p
step interactive (window cols rows succeeds) p =
    if interactive then send_frame (resize cols rows) succeeds p else ((waiting, []), p)
step interactive (interrupt succeeds) p =
    if interactive then ((waiting, []), p) else send_frame (signal int) succeeds p
step interactive (quitting succeeds) p =
    if interactive then ((waiting, []), p) else send_frame (signal quit) succeeds p

-- The end of the loop, and the `finish` after it.
abbrev pub closing : End → Pump → List Action
closing (exited code) p = if p.can_send then finish ∷ [] else []
closing waiting p = []
closing stopped p = []

abbrev pub go_on : End → List Action → Pump → End × List Action → End × List Action
go_on waiting now p (end, later) = (end, now ++ later)
go_on stopped now p rest = (stopped, now)
go_on (exited code) now p rest = (exited code, now ++ closing (exited code) p)

unfoldable pub run : Bool → List Event → Pump → End × List Action
unfolding step
run interactive [] p = (waiting, [])
run interactive (e ∷ es) p =
    let ((end, now), p') = step interactive e p in
    let rest = run interactive es p' in go_on end now p' rest

abbrev pub started : Pump
started = record { can_send = true; stdin_done = false }
