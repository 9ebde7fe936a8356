-- ===== src/Session/FrameReader/Stream.antt =====
-- `spawn_frame_reader` on a stream that a sender of frames wrote.
use quish.Base.{
  ℕ, zero, suc, ◌<◌, ◌≡◌, refl, ap, ◌∙◌, ◌⊎◌, inl, inr, Option, none, some, List, [], ◌∷◌, ◌++◌,
  map, arith, length, length-append,
}
use mathlib.Core.List.{append-nil, append_assoc}
use quish.Base.Text.{Bytes}
use quish.Proto.Frame.{CodecError, Result, ok, err, Codec, encode, take_frame, decode}
use quish.Proto.Frame.Split.{take_frame-append, take_frame-append_err, take_frame_waits}
use quish.Proto.Frame.RoundTrip.{decode-take_frame-encode, encode_nonempty}
use quish.Session.FrameReader.{
  Recv, chunk, frame, closed, FrameReader, on_take, next_loop, next_frame, pending, read_loop,
  spawn_frame_reader,
}

abbrev pub concat : List Bytes → Bytes
concat [] = []
concat (c ∷ cs) = c ++ concat cs

abbrev pub chunks : List Bytes → List Recv
chunks = map chunk

Taken-cases :
    (t : Result (Option Bytes) × Bytes)
    → ((body : Bytes) × (rest : Bytes) × (t ≡ (ok (some body), rest)))
      ⊎ ((rest : Bytes) × (t ≡ (ok none, rest)))
      ⊎ ((e : CodecError) × (rest : Bytes) × (t ≡ (err e, rest)))
Taken-cases (ok (some body), rest) = inl (body, rest, refl)
Taken-cases (ok none, rest) = inr (inl (rest, refl))
Taken-cases (err e, rest) = inr (inr (e, rest, refl))

-- However the stream is cut, the first frame of the whole is what `next_frame` returns.
next_loop-finds :
    (cs : List Bytes) (buf : Bytes) {body rest : Bytes}
    → take_frame (buf ++ concat cs) ≡ (ok (some body), rest)
    → (cs' : List Bytes) × (buf' : Bytes) × (next_loop (chunks cs) buf
        ≡ (frame body, record { recv = chunks cs'; buf = buf' }))
      × (buf' ++ concat cs' ≡ rest)
unfolding next_loop on_take
next_loop-finds [] buf {body} {rest} h = ([], rest, rw (rw append-nil at h), append-nil rest)
next_loop-finds (c ∷ cs) buf {body} {rest} h = elim (Taken-cases (take_frame buf)) [
  | inl (b, r, e) ↦
      let whole = take_frame-append buf (concat (c ∷ cs)) e in
      (c ∷ cs, r, rw e (ground (arith, whole)), ground (arith, whole))
  | inr (inl (r, e)) ↦
      let (cs', buf', found, left) =
        next_loop-finds cs (buf ++ c) {body = body} {rest = rest}
          (rw (append_assoc buf c (concat cs)) h) in
      (cs', buf', rw e (rw (take_frame_waits buf e) found), left)
  | inr (inr (x, r, e)) ↦ cc (take_frame-append_err buf (concat (c ∷ cs)) e)
]

-- With no whole frame in the stream the reader closes.
next_loop-closes :
    (cs : List Bytes) (buf : Bytes) {rest : Bytes}
    → take_frame (buf ++ concat cs) ≡ (ok none, rest)
    → (r : FrameReader) × (next_loop (chunks cs) buf ≡ (closed, r))
unfolding next_loop on_take
next_loop-closes [] buf {rest} h = (record { recv = []; buf = rest }, rw (rw append-nil at h))
next_loop-closes (c ∷ cs) buf {rest} h = elim (Taken-cases (take_frame buf)) [
  | inl (b, r, e) ↦ absurd (cc (take_frame-append buf (concat (c ∷ cs)) e))
  | inr (inl (r, e)) ↦
      let (q, done) =
        next_loop-closes cs (buf ++ c) {rest = rest} (rw (append_assoc buf c (concat cs)) h) in
      (q, rw e (rw (take_frame_waits buf e) done))
  | inr (inr (x, r, e)) ↦ absurd (cc (take_frame-append_err buf (concat (c ∷ cs)) e))
]

-- What a sender writes for a list of messages.
abbrev pub Writes : {T : Type 0} → Codec T → List T → Bytes → Type 0
Writes c [] bytes = bytes ≡ []
Writes c (m ∷ ms) bytes =
    (f : Bytes) × (more : Bytes) × (encode c m ≡ ok f) × (bytes ≡ f ++ more) × Writes c ms more

module _ {T : Type 0} (c : Codec T) where
  -- One round that delivers a message.
  read_loop_step :
      (fuel : ℕ) (r r' : FrameReader) (body : Bytes) (m : T)
      → next_frame r ≡ (frame body, r')
      → decode c body ≡ ok m
      → read_loop c (suc fuel) r ≡ m ∷ read_loop c fuel r'
  unfolding read_loop
  read_loop_step fuel r r' body m found decoded = ground arith

  read_loop-Writes :
      (ms : List T) (fuel : ℕ) (cs : List Bytes) (buf bytes tail : Bytes)
      → Writes c ms bytes
      → buf ++ concat cs ≡ bytes ++ tail
      → take_frame tail ≡ (ok none, tail)
      → length bytes < fuel
      → read_loop c fuel (record { recv = chunks cs; buf = buf }) ≡ ms
  unfolding read_loop next_frame
  read_loop-Writes ms zero cs buf bytes tail w e t h = absurd (omega arith)
  read_loop-Writes [] (suc fuel) cs buf bytes tail w e t h =
      let (r, done) = next_loop-closes cs buf {rest = tail} (rw e (rw w t)) in rw (done, read_loop)
  read_loop-Writes (m ∷ ms) (suc fuel) cs buf bytes tail (f, more, wrote, cut, w) e t h =
      let (body, taken, decoded) = decode-take_frame-encode c m (more ++ tail) wrote in
      let (cs', buf', found, left) =
        next_loop-finds cs buf {body = body} {rest = more ++ tail}
          (rw e (rw cut (rw (append_assoc f more tail) taken))) in
      read_loop_step fuel (record { recv = chunks cs; buf = buf })
        (record { recv = chunks cs'; buf = buf' }) body m found decoded
      ∙ ap (λ l. m ∷ l)
          (read_loop-Writes ms fuel cs' buf' more tail w left t
            (omega (arith, ap length cut, length-append f more, encode_nonempty c m wrote)))

  pending-chunks : (cs : List Bytes) → pending (chunks cs) ≡ length (concat cs)
  unfolding pending
  pending-chunks [] = refl
  pending-chunks (x ∷ cs) = omega (arith, pending-chunks cs, length-append x (concat cs))

  -- The messages that a sender encoded arrive all, in order and nothing else, however the
  -- transport cuts the bytes into chunks, and whatever incomplete frame follows them.
  pub spawn_frame_reader-Writes :
      (ms : List T) (cs : List Bytes) (bytes tail : Bytes)
      → Writes c ms bytes
      → concat cs ≡ bytes ++ tail
      → take_frame tail ≡ (ok none, tail)
      → spawn_frame_reader c (record { recv = chunks cs; buf = [] }) ≡ ms
  unfolding spawn_frame_reader
  spawn_frame_reader-Writes ms cs bytes tail w e t =
      read_loop-Writes ms _ cs [] bytes tail w e t
        (omega (arith, pending-chunks cs, ap length e, length-append bytes tail))
