-- ===== src/Session/Pump/Forward.antt =====
-- quish-server/src/session.rs: `pump_forward`, between a channel and a TCP connection.
pub mod Drained
mod Tests
use quish.Base.{
  ℕ, zero, suc, ◌+◌, ◌-◌, ◌*◌, ◌/◌, ◌%◌, ◌^◌, ◌≤◌, ◌<◌, min, ◌≡◌, refl, sym, ap, ◌∙◌, ◌≢◌, ◌↔◌, ◌⊎◌,
  inl, inr, Bool, true, false, not, ◌&&◌, ◌||◌, Option, none, some, List, [], ◌∷◌, ◌++◌, map,
  reverse, arith, ltb, leb, ◌==◌, if◌then◌else◌, ltb→lt, lt→ltb, ltb→ge, ge→ltb, leb→le, ==_iff,
  ==_refl, Bool-cases, Option-cases, ◌>>=◌, unwrap_or, is_some, length, get_elem?, get_or, take,
  drop, any, all, retain, All, length-append, take-append_length, drop-append_length,
  take-append-drop, take-append_le, drop-append_le, length-take, length-drop,
}
use quish.Base.Text.{Bytes}
use quish.Proto.Message.{ChannelMessage, data_msg, data_err, resize, exit_status, signal}
use quish.Session.Pump.{
  End, waiting, drained, Sent, Action, to_stdin, stdin_eof, Pump, started, send_msg, ignored, run,
}

-- A frame of the client, with whether `write_all` takes its data, and what the service sent. The
-- service's input and output take the places of the child's.
pub data Event : Type 0 where
  from_client : Option ChannelMessage → Bool → Event
  from_service : Option Bytes → Sent → Event

-- The test behind the `select!`.
abbrev close_when_both : Pump → (End × List Action) × Pump
close_when_both p = (((if p.out_done && p.frames_done then drained else waiting), []), p)

-- A write to the service that fails ends the frames.
unfoldable pub forward_data : Bytes → Bool → Pump → (End × List Action) × Pump
forward_data d true p = ((waiting, to_stdin d ∷ []), p)
forward_data d false p = close_when_both (record p { frames_done = true })

unfoldable pub forward_frame : ChannelMessage → Bool → Pump → (End × List Action) × Pump
unfolding forward_data
forward_frame (data_msg d) taken p = forward_data d taken p
forward_frame (data_err d) taken p = ignored p
forward_frame (resize cols rows) taken p = ignored p
forward_frame (exit_status code) taken p = ignored p
forward_frame (signal s) taken p = ignored p

abbrev with_eof : (End × List Action) × Pump → (End × List Action) × Pump
with_eof ((end, actions), p) = ((end, stdin_eof ∷ actions), p)

unfoldable pub forward_step : Event → Pump → (End × List Action) × Pump
unfolding forward_frame
forward_step (from_client (some m) taken) p =
    if p.frames_done then ignored p else forward_frame m taken p
forward_step (from_client none taken) p =
    if p.frames_done
    then ignored p
    else with_eof (close_when_both (record p { frames_done = true }))
forward_step (from_service (some bytes) s) p =
    if p.out_done then ignored p else send_msg (data_msg bytes) s p
forward_step (from_service none s) p =
    if p.out_done then ignored p else close_when_both (record p { out_done = true })

unfoldable pub pump_forward : List Event → End × List Action
unfolding forward_step run
pump_forward es = run forward_step es started
