-- ===== src/Proto/Frame/Tests.antt =====
-- Tests of the frame codec.
use quish.Base.{◌+◌, ◌*◌, ◌≡◌, refl, none, some, [], ◌∷◌, ◌++◌}
use quish.Base.Text.{Bytes, codes}
use quish.Samples.{bytes_codec}
use quish.Proto.Frame.{
  ok, err, too_large, encode, decode, take_frame, to_be_bytes, parse_len, from_be_bytes,
}
use quish.Proto.Frame.RoundTrip.{decode-take_frame-encode}

parse_len_cap : parse_len (0 ∷ 1 ∷ 0 ∷ 0 ∷ []) ≡ ok (64 * 1024)
unfolding parse_len from_be_bytes
parse_len_cap = refl

parse_len_over : parse_len (0 ∷ 1 ∷ 0 ∷ 1 ∷ []) ≡ err (too_large (64 * 1024 + 1))
unfolding parse_len from_be_bytes
parse_len_over = refl

take_frame_partial : take_frame (0 ∷ 0 ∷ 0 ∷ 2 ∷ 7 ∷ []) ≡ (ok none, 0 ∷ 0 ∷ 0 ∷ 2 ∷ 7 ∷ [])
unfolding take_frame parse_len from_be_bytes
take_frame_partial = refl

abbrev message : Bytes
message = codes "hello"

abbrev behind : Bytes
behind = 0 ∷ 0 ∷ []

decode-take_frame-encode_example :
    (body : Bytes) × (take_frame ((0 ∷ 0 ∷ 0 ∷ 5 ∷ message) ++ behind) ≡ (ok (some body), behind))
    × (decode bytes_codec body ≡ ok message)
unfolding encode to_be_bytes
decode-take_frame-encode_example =
    decode-take_frame-encode bytes_codec message behind {frame = 0 ∷ 0 ∷ 0 ∷ 5 ∷ message} refl
