-- ===== src/Session/Pump.antt =====
-- quish-server/src/session.rs: `pump_shell` and `pump_exec`. What the branch that `select!` takes
-- received is an event; the events of a run are a list. A branch whose guard is false is not
-- polled, so an event of it does nothing.
pub mod Streams
pub mod Exec
pub mod Shell
pub mod Forward
mod Tests
use quish.Base.{
  ℕ, zero, suc, ◌+◌, ◌-◌, ◌*◌, ◌/◌, ◌%◌, ◌^◌, ◌≤◌, ◌<◌, min, ◌≡◌, refl, sym, ap, ◌∙◌, ◌≢◌, ◌↔◌, ◌⊎◌,
  inl, inr, Bool, true, false, not, ◌&&◌, ◌||◌, Option, none, some, List, [], ◌∷◌, ◌++◌, map,
  reverse, arith, ltb, leb, ◌==◌, if◌then◌else◌, ltb→lt, lt→ltb, ltb→ge, ge→ltb, leb→le, ==_iff,
  ==_refl, Bool-cases, Option-cases, ◌>>=◌, unwrap_or, is_some, length, get_elem?, get_or, take,
  drop, any, all, retain, All, length-append, take-append_length, drop-append_length,
  take-append-drop, take-append_le, drop-append_le, length-take, length-drop,
}
use quish.Base.Text.{Bytes}
use quish.Proto.Message.{Signal, ChannelMessage, data_msg, data_err, resize, exit_status, signal}

-- `PumpEnd` and an error of `send_msg`; `waiting` is a loop that goes on.
pub data End : Type 0 where
  waiting drained client_gone failed : End

-- What `send_msg` returned: true, false, or an error.
pub data Sent : Type 0 where
  delivered gone broken : Sent

-- What the pump passes on.
pub data Action : Type 0 where
  to_client : ChannelMessage → Action
  to_stdin : Bytes → Action
  to_resize : ℕ → ℕ → Action
  to_signal : Signal → Action
  stdin_eof : Action

-- A received item: a chunk or the end of its stream.
pub data Event : Type 0 where
  out : Option Bytes → Sent → Event
  err : Option Bytes → Sent → Event
  frame : Option ChannelMessage → Event

pub record Pump : Type 0 where
  pub out_done : Bool
  pub err_done : Bool
  pub frames_done : Bool
  pub in_open : Bool

abbrev pub started : Pump
started = record { out_done = false; err_done = false; frames_done = false; in_open = true }

-- `if !send_msg(..).await? { return Ok(PumpEnd::ClientGone) }`.
abbrev pub send_msg : ChannelMessage → Sent → Pump → (End × List Action) × Pump
send_msg m delivered p = ((waiting, to_client m ∷ []), p)
send_msg m gone p = ((client_gone, []), p)
send_msg m broken p = ((failed, []), p)

abbrev pub write_stdin : Bytes → Pump → (End × List Action) × Pump
write_stdin d p = ((waiting, (if p.in_open then to_stdin d ∷ [] else [])), p)

-- The frames end: the child's standard input ends.
abbrev pub end_frames : Pump → (End × List Action) × Pump
end_frames p = ((waiting, stdin_eof ∷ []), record p { frames_done = true; in_open = false })

abbrev pub ignored : Pump → (End × List Action) × Pump
ignored p = ((waiting, []), p)

-- The test behind the `select!` of `pump_exec`.
abbrev pub close_when_done : Pump → (End × List Action) × Pump
close_when_done p = (((if p.out_done && p.err_done then drained else waiting), []), p)

pub exec_frame : ChannelMessage → Pump → (End × List Action) × Pump
exec_frame (data_msg d) p = write_stdin d p
exec_frame (data_err d) p = ignored p
exec_frame (resize cols rows) p = ignored p
exec_frame (exit_status code) p = ignored p
exec_frame (signal s) p = ((waiting, to_signal s ∷ []), p)

-- One round of `pump_exec`.
pub exec_step : Event → Pump → (End × List Action) × Pump
unfolding exec_frame
exec_step (out (some bytes) s) p = if p.out_done then ignored p else send_msg (data_msg bytes) s p
exec_step (out none s) p =
    if p.out_done then ignored p else close_when_done (record p { out_done = true })
exec_step (err (some bytes) s) p = if p.err_done then ignored p else send_msg (data_err bytes) s p
exec_step (err none s) p =
    if p.err_done then ignored p else close_when_done (record p { err_done = true })
exec_step (frame (some m)) p = if p.frames_done then ignored p else exec_frame m p
exec_step (frame none) p = if p.frames_done then ignored p else end_frames p

unfoldable pub shell_frame : ChannelMessage → Pump → (End × List Action) × Pump
shell_frame (data_msg d) p = write_stdin d p
shell_frame (data_err d) p = ignored p
shell_frame (resize cols rows) p = ((waiting, to_resize cols rows ∷ []), p)
shell_frame (exit_status code) p = ignored p
shell_frame (signal s) p = ignored p

-- One round of `pump_shell`, which has no error stream.
unfoldable pub shell_step : Event → Pump → (End × List Action) × Pump
unfolding shell_frame
shell_step (out (some bytes) s) p = send_msg (data_msg bytes) s p
shell_step (out none s) p = ((drained, []), p)
shell_step (err o s) p = ignored p
shell_step (frame (some m)) p = if p.frames_done then ignored p else shell_frame m p
shell_step (frame none) p = if p.frames_done then ignored p else end_frames p

-- The loop: how it ended, and what it passed on, in order.
abbrev pub go_on : (End × List Action) → End × List Action → End × List Action
go_on (waiting, now) (end, later) = (end, now ++ later)
go_on (drained, now) rest = (drained, now)
go_on (client_gone, now) rest = (client_gone, now)
go_on (failed, now) rest = (failed, now)

unfoldable pub run :
    {E : Type 0} → (E → Pump → (End × List Action) × Pump) → List E → Pump → End × List Action
run round [] p = (waiting, [])
run round (e ∷ es) p = let (done, p') = round e p in let rest = run round es p' in go_on done rest

pub pump_exec : List Event → End × List Action
unfolding exec_step run
pump_exec es = run exec_step es started

unfoldable pub pump_shell : List Event → End × List Action
unfolding shell_step run
pump_shell es = run shell_step es started
