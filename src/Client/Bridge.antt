-- ===== src/Client/Bridge.antt =====
-- quish-client/src/main.rs: `bridge`, between a local socket and a forward channel.
pub mod Forwarded
mod Tests
use quish.Base.{
  ℕ, zero, suc, ◌+◌, ◌-◌, ◌*◌, ◌/◌, ◌%◌, ◌^◌, ◌≤◌, ◌<◌, min, ◌≡◌, refl, sym, ap, ◌∙◌, ◌≢◌, ◌↔◌, ◌⊎◌,
  inl, inr, Bool, true, false, not, ◌&&◌, ◌||◌, Option, none, some, List, [], ◌∷◌, ◌++◌, map,
  reverse, arith, ltb, leb, ◌==◌, if◌then◌else◌, ltb→lt, lt→ltb, ltb→ge, ge→ltb, leb→le, ==_iff,
  ==_refl, Bool-cases, Option-cases, ◌>>=◌, unwrap_or, is_some, length, get_elem?, get_or, take,
  drop, is_empty, any, all, retain, All, length-append, take-append_length, drop-append_length,
  take-append-drop, take-append_le, drop-append_le, length-take, length-drop,
}
use quish.Base.Text.{Bytes}
use quish.Proto.Message.{ChannelMessage, data_msg, data_err, resize, exit_status, signal}

-- The loop from the socket to the channel: what `read` gave, `none` for its end or an error, with
-- whether the frame could be sent.
unfoldable pub up : List (Option Bytes × Bool) → List ChannelMessage
up [] = []
up ((none, s) ∷ reads) = []
up ((some d, true) ∷ reads) = data_msg d ∷ up reads
up ((some d, false) ∷ reads) = []

-- The task from the channel to the socket: the frames of the reader, with whether the socket takes
-- the data.
unfoldable pub down : List (ChannelMessage × Bool) → List Bytes
down [] = []
down ((data_msg d, true) ∷ frames) = d ∷ down frames
down ((data_msg d, false) ∷ frames) = []
down ((data_err d, s) ∷ frames) = down frames
down ((resize cols rows, s) ∷ frames) = down frames
down ((exit_status code, s) ∷ frames) = down frames
down ((signal x, s) ∷ frames) = down frames
