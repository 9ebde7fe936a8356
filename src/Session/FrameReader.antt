-- ===== src/Session/FrameReader.antt =====
-- quish-server/src/session.rs: `FrameReader` and `spawn_frame_reader`.
-- What `recv_data` answers, call by call, is a list; at its end the stream has ended.
pub mod Stream
mod Tests
use quish.Base.{
  ℕ, zero, suc, ◌+◌, ◌-◌, ◌*◌, ◌/◌, ◌%◌, ◌^◌, ◌≤◌, ◌<◌, min, ◌≡◌, refl, sym, ap, ◌∙◌, ◌≢◌, ◌↔◌, ◌⊎◌,
  inl, inr, Bool, true, false, not, ◌&&◌, ◌||◌, Option, none, some, List, [], ◌∷◌, ◌++◌, map,
  reverse, arith, ltb, leb, ◌==◌, if◌then◌else◌, ltb→lt, lt→ltb, ltb→ge, ge→ltb, leb→le, ==_iff,
  ==_refl, Bool-cases, Option-cases, ◌>>=◌, unwrap_or, is_some, length, get_elem?, get_or, take,
  drop, any, all, retain, All, length-append, take-append_length, drop-append_length,
  take-append-drop, take-append_le, drop-append_le, length-take, length-drop,
}
use quish.Base.Text.{Bytes}
use quish.Proto.Frame.{CodecError, Result, ok, err, Codec, take_frame, decode}

pub data Recv : Type 0 where
  chunk : Bytes → Recv
  end_of_stream h3_no_error failure : Recv

-- `Result<Option<Bytes>>` of `next_frame`.
pub data Next : Type 0 where
  frame : Bytes → Next
  closed : Next
  codec_error : CodecError → Next
  recv_error : Next

pub record FrameReader : Type 0 where
  pub recv : List Recv
  pub buf : Bytes

-- The round of the loop up to `recv_data`, which `wait` stands for.
pub on_take :
    Result (Option Bytes) × Bytes → List Recv → (Bytes → Next × FrameReader) → Next × FrameReader
on_take (ok (some body), buf) rs wait = (frame body, record { recv = rs; buf = buf })
on_take (ok none, buf) rs wait = wait buf
on_take (err e, buf) rs wait = (codec_error e, record { recv = rs; buf = buf })

-- `next_frame`: each round that needs more bytes takes one answer of `recv_data`.
pub next_loop : List Recv → Bytes → Next × FrameReader
next_loop [] buf = on_take (take_frame buf) [] (λ b. (closed, record { recv = []; buf = b }))
next_loop (chunk c ∷ rs) buf = on_take (take_frame buf) (chunk c ∷ rs) (λ b. next_loop rs (b ++ c))
next_loop (end_of_stream ∷ rs) buf =
    on_take (take_frame buf) (end_of_stream ∷ rs) (λ b. (closed, record { recv = rs; buf = b }))
next_loop (h3_no_error ∷ rs) buf =
    on_take (take_frame buf) (h3_no_error ∷ rs) (λ b. (closed, record { recv = rs; buf = b }))
next_loop (failure ∷ rs) buf =
    on_take (take_frame buf) (failure ∷ rs) (λ b. (recv_error, record { recv = rs; buf = b }))

pub next_frame : FrameReader → Next × FrameReader
next_frame r = next_loop r.recv r.buf

-- The bytes that the reader holds or will receive.
pub pending : List Recv → ℕ
pending [] = 0
pending (chunk c ∷ rs) = length c + pending rs
pending (_ ∷ rs) = pending rs

-- `spawn_frame_reader`: the messages that its task sends, in order, to a receiver that stays.
pub read_loop : {T : Type 0} → Codec T → ℕ → FrameReader → List T
read_loop c zero r = []
read_loop c (suc fuel) r =
    let (next, r') = next_frame r in
    elim next [
      | frame body ↦ elim (decode c body) [ ok msg ↦ msg ∷ read_loop c fuel r' | err e ↦ [] ]
      | closed ↦ []
      | codec_error e ↦ []
      | recv_error ↦ []
    ]

-- Each frame takes a byte at least, so the bytes at hand bound the rounds.
pub spawn_frame_reader : {T : Type 0} → Codec T → FrameReader → List T
spawn_frame_reader c r = read_loop c (suc (length r.buf + pending r.recv)) r
