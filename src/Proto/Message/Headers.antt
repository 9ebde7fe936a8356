-- ===== src/Proto/Message/Headers.antt =====
-- The headers of a challenge and of its answer survive the trip.
use quish.Base.{◌≡◌, sym, inl, inr, some, Option-cases}
use mathlib.Core.Option.{some-injective}
use quish.Base.Text.{Bytes}
use quish.Base.Text.Laws.{trim_graphic}
use quish.Proto.Frame.{Codec}
use quish.Auth.Types.{Base64}
use quish.Proto.Message.{encode_header, decode_header}

-- What one side puts into a challenge header the other side reads back, for a challenge as for an
-- answer.
pub decode_header-encode_header :
    (base64 : Base64) {T : Type 0} (postcard : Codec T) (message : T) {value : Bytes}
    → encode_header base64 postcard message ≡ some value
    → decode_header base64 postcard value ≡ some message
unfolding encode_header decode_header
decode_header-encode_header base64 postcard message {value} h =
    elim (Option-cases (postcard.to_stdvec message)) [
      | inl e ↦ absurd (cc (rw e at h))
      | inr (bytes, e) ↦
          let sent : base64.encode bytes ≡ value = some-injective _ _ (rw e at h) in
          rw (sym sent) (
            rw (trim_graphic _ (base64.encode_graphic bytes))
              (rw (base64.decode-encode bytes) (postcard.from_to message bytes e)))
    ]
