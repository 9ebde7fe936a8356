-- ===== src/Proto/Frame/RoundTrip.antt =====
-- `encode` against `take_frame` and `decode`.
use quish.Base.{
  ℕ, ◌%◌, ◌^◌, ◌≤◌, ◌<◌, ◌≡◌, ◌⊎◌, inl, inr, none, some, ◌++◌, arith, ltb, ltb→lt, ltb→ge,
  Bool-cases, Option-cases, length,
}
use quish.Base.Text.{Bytes}
use quish.Proto.Frame.{
  ok, err, too_large, postcard, Codec, encode, decode, take_frame, to_be_bytes, max_frame_len,
}
use quish.Proto.Frame.Split.{take_frame-framed}

small : (n : ℕ) → n ≤ max_frame_len → n % 2 ^ 32 ≡ n
small n h = omega arith

module _ {T : Type 0} (c : Codec T) where
  -- `encode` fails exactly on a body that is over the cap or that postcard refuses; what it
  -- writes is the length and the body.
  pub encode_outcome :
      (m : T)
      → ((c.to_stdvec m ≡ none) × (encode c m ≡ err postcard))
        ⊎ ((body : Bytes) × (c.to_stdvec m ≡ some body)
            × (max_frame_len < length body)
            × (encode c m ≡ err (too_large (length body))))
        ⊎ ((body : Bytes) × (c.to_stdvec m ≡ some body)
            × (length body ≤ max_frame_len)
            × (encode c m ≡ ok (to_be_bytes (length body) ++ body)))
  unfolding encode
  encode_outcome m = elim (Option-cases (c.to_stdvec m)) [
    | inl e ↦ inl (e, rw e)
    | inr (body, e) ↦ elim (Bool-cases (ltb max_frame_len (length body))) [
      | inl big ↦ inr (inl (body, e, ltb→lt _ _ big, rw (e, big)))
      | inr fits ↦
          let le : length body ≤ max_frame_len = ltb→ge _ _ fits in
          inr (inr (body, e, le, rw e (rw fits (rw (small (length body) le)))))
    ]
  ]

  encode_shape :
      (m : T) {frame : Bytes}
      → encode c m ≡ ok frame
      → (body : Bytes) × (c.to_stdvec m ≡ some body)
        × (length body ≤ max_frame_len)
        × (frame ≡ to_be_bytes (length body) ++ body)
  encode_shape m h = elim (encode_outcome m) [
    | inl (_, e) ↦ cc
    | inr (inl (_, _, _, e)) ↦ cc
    | inr (inr (body, e, fits, f)) ↦ (body, e, fits, ground arith)
  ]

  -- A message that was encoded comes off the front of the stream whole and decodes to itself;
  -- the bytes behind it stay in the buffer.
  pub decode-take_frame-encode :
      (m : T) (rest : Bytes) {frame : Bytes}
      → encode c m ≡ ok frame
      → (body : Bytes) × (take_frame (frame ++ rest) ≡ (ok (some body), rest))
        × (decode c body ≡ ok m)
  unfolding decode
  decode-take_frame-encode m rest h =
      let (body, e, fits, shape) = encode_shape m h in
      (body, rw shape (take_frame-framed body rest fits), rw (c.from_to m body e))

  -- A frame has at least the four bytes of its prefix.
  pub encode_nonempty : (m : T) {frame : Bytes} → encode c m ≡ ok frame → 0 < length frame
  unfolding to_be_bytes
  encode_nonempty m h = let (body, e, fits, shape) = encode_shape m h in rw shape (omega arith)
