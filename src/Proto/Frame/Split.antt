-- ===== src/Proto/Frame/Split.antt =====
-- What `take_frame` does on every buffer.
use quish.Base.{
  ℕ, suc, ◌+◌, ◌^◌, ◌≤◌, ◌<◌, ◌≡◌, refl, ◌∙◌, ◌⊎◌, inl, inr, none, some, [], ◌∷◌, ◌++◌, arith, ltb,
  if◌then◌else◌, lt→ltb, ge→ltb, length, take, drop, length-append, take-append_length,
  drop-append_length, take-append_le, drop-append_le, length-drop,
}
use quish.Base.Text.{Bytes}
use quish.Proto.Frame.{
  CodecError, Result, ok, err, parse_len, take_frame, to_be_bytes, from_be_bytes, max_frame_len,
}

pub from_be_bytes-to_be_bytes : (n : ℕ) → n < 2 ^ 32 → from_be_bytes (to_be_bytes n) ≡ n
unfolding from_be_bytes to_be_bytes
from_be_bytes-to_be_bytes n h = omega arith

pub parse_len-to_be_bytes : (n : ℕ) → n ≤ max_frame_len → parse_len (to_be_bytes n) ≡ ok n
unfolding parse_len
parse_len-to_be_bytes n h = ground (arith, from_be_bytes-to_be_bytes n)

four_more : (n : ℕ) → 4 + n ≡ suc (suc (suc (suc n)))
four_more n = omega arith

-- `take_frame` on a buffer that holds a whole prefix.
pub take_frame_step :
    (a b c d : ℕ) (rest : Bytes) {n : ℕ}
    → parse_len (a ∷ b ∷ c ∷ d ∷ []) ≡ ok n
    → take_frame (a ∷ b ∷ c ∷ d ∷ rest) ≡ (
        if ltb (length rest) n
        then (ok none, a ∷ b ∷ c ∷ d ∷ rest)
        else (ok (some (take n rest)), drop n rest))
unfolding take_frame
take_frame_step a b c d rest {n} h = rw (h, take_frame) (rw (four_more n) (ground arith))

-- A body behind its own length comes off the buffer whole, and what follows it stays.
pub take_frame-framed :
    (body rest : Bytes)
    → length body ≤ max_frame_len
    → take_frame ((to_be_bytes (length body) ++ body) ++ rest) ≡ (ok (some body), rest)
unfolding to_be_bytes
take_frame-framed body rest h =
    take_frame_step _ _ _ _ (body ++ rest) (parse_len-to_be_bytes (length body) h)
    ∙ rw (ge→ltb (length (body ++ rest)) (length body) (omega (arith, length-append body rest)))
        (rw (take-append_length body rest, drop-append_length body rest))

Result-cases : (r : Result ℕ) → ((n : ℕ) × (r ≡ ok n)) ⊎ ((e : CodecError) × (r ≡ err e))
Result-cases (ok n) = inl (n, refl)
Result-cases (err e) = inr (e, refl)

-- An over-long prefix is reported at once, and the buffer is kept.
pub take_frame_refused :
    (a b c d : ℕ) (rest : Bytes) {e : CodecError}
    → parse_len (a ∷ b ∷ c ∷ d ∷ []) ≡ err e
    → take_frame (a ∷ b ∷ c ∷ d ∷ rest) ≡ (err e, a ∷ b ∷ c ∷ d ∷ rest)
unfolding take_frame
take_frame_refused a b c d rest h = rw (h, take_frame) (ground arith)

-- With fewer than four bytes there is no frame yet.
pub take_frame_short : (buf : Bytes) → length buf < 4 → take_frame buf ≡ (ok none, buf)
unfolding take_frame
take_frame_short buf h = rw (lt→ltb (length buf) 4 h)

-- A frame that is found in a buffer is found in every longer one.
pub take_frame-append :
    (buf more : Bytes) {body rest : Bytes}
    → take_frame buf ≡ (ok (some body), rest)
    → take_frame (buf ++ more) ≡ (ok (some body), rest ++ more)
take_frame-append [] more h = cc (take_frame_short [] (omega arith))
take_frame-append (a ∷ []) more h = cc (take_frame_short (a ∷ []) (omega arith))
take_frame-append (a ∷ b ∷ []) more h = cc (take_frame_short (a ∷ b ∷ []) (omega arith))
take_frame-append (a ∷ b ∷ c ∷ []) more h = cc (take_frame_short (a ∷ b ∷ c ∷ []) (omega arith))
take_frame-append (a ∷ b ∷ c ∷ d ∷ buf) more h =
    elim (Result-cases (parse_len (a ∷ b ∷ c ∷ d ∷ []))) [
      | inl (n, e) ↦ ground (
        arith,
        take_frame_step a b c d buf e,
        take_frame_step a b c d (buf ++ more) e,
        length-append buf more,
        take-append_le n buf more,
        drop-append_le n buf more,
      )
      | inr (x, e) ↦ cc (take_frame_refused a b c d buf e)
    ]

-- A refused prefix stays refused.
pub take_frame-append_err :
    (buf more : Bytes) {e : CodecError} {rest : Bytes}
    → take_frame buf ≡ (err e, rest)
    → take_frame (buf ++ more) ≡ (err e, buf ++ more)
take_frame-append_err [] more h = cc (take_frame_short [] (omega arith))
take_frame-append_err (a ∷ []) more h = cc (take_frame_short (a ∷ []) (omega arith))
take_frame-append_err (a ∷ b ∷ []) more h = cc (take_frame_short (a ∷ b ∷ []) (omega arith))
take_frame-append_err (a ∷ b ∷ c ∷ []) more h = cc (take_frame_short (a ∷ b ∷ c ∷ []) (omega arith))
take_frame-append_err (a ∷ b ∷ c ∷ d ∷ buf) more h =
    elim (Result-cases (parse_len (a ∷ b ∷ c ∷ d ∷ []))) [
      | inl (n, e) ↦ ground (arith, take_frame_step a b c d buf e)
      | inr (x, e) ↦
          ground
            (arith, take_frame_refused a b c d buf e, take_frame_refused a b c d (buf ++ more) e)
    ]

-- Without a frame the buffer stays as it is.
pub take_frame_waits : (buf : Bytes) {rest : Bytes} → take_frame buf ≡ (ok none, rest) → rest ≡ buf
take_frame_waits [] h = ground (arith, take_frame_short [])
take_frame_waits (a ∷ []) h = ground (arith, take_frame_short (a ∷ []))
take_frame_waits (a ∷ b ∷ []) h = ground (arith, take_frame_short (a ∷ b ∷ []))
take_frame_waits (a ∷ b ∷ c ∷ []) h = ground (arith, take_frame_short (a ∷ b ∷ c ∷ []))
take_frame_waits (a ∷ b ∷ c ∷ d ∷ buf) h = elim (Result-cases (parse_len (a ∷ b ∷ c ∷ d ∷ []))) [
  | inl (n, e) ↦ ground (arith, take_frame_step a b c d buf e)
  | inr (x, e) ↦ cc (take_frame_refused a b c d buf e)
]

-- A frame takes its four bytes of prefix at least.
pub take_frame_shrinks :
    (buf : Bytes) {body rest : Bytes}
    → take_frame buf ≡ (ok (some body), rest)
    → length rest < length buf
take_frame_shrinks [] h = cc (take_frame_short [] (omega arith))
take_frame_shrinks (a ∷ []) h = cc (take_frame_short (a ∷ []) (omega arith))
take_frame_shrinks (a ∷ b ∷ []) h = cc (take_frame_short (a ∷ b ∷ []) (omega arith))
take_frame_shrinks (a ∷ b ∷ c ∷ []) h = cc (take_frame_short (a ∷ b ∷ c ∷ []) (omega arith))
take_frame_shrinks (a ∷ b ∷ c ∷ d ∷ buf) h = elim (Result-cases (parse_len (a ∷ b ∷ c ∷ d ∷ []))) [
  | inl (n, e) ↦ ground (arith, take_frame_step a b c d buf e, length-drop n buf)
  | inr (x, e) ↦ cc (take_frame_refused a b c d buf e)
]
