-- ===== src/Server/SignProxy/Tests.antt =====
-- Tests of the signing thread.
-- A codec whose responses are a tag and the signature.
use quish.Base.{zero, suc, ◌≡◌, refl, sym, true, false, Option, none, some, List, [], ◌∷◌}
use quish.Base.Text.{Bytes}
use quish.Proto.Frame.{Codec, to_be_bytes, from_be_bytes}
use mathlib.Core.Option.{some-injective}
use quish.Server.SignProxy.{
  sign_write, read_body, sign_read, SignResponse, signature, sign_failed, Job, sign_once,
  serve_jobs, answer_all,
}
use quish.Samples.{bytes_codec}
use quish.Server.SignProxy.Replies.{stream_of}
use quish.Server.SignProxy.Signed.{requests_at, IsSigned, serve_jobs-IsSigned}
use quish.Server.SignThrottle.{new, allow_at, refill, spend}

abbrev write_response : SignResponse → Bytes
write_response (signature sig) = 1 ∷ sig
write_response sign_failed = 0 ∷ []

abbrev read_response : Bytes → Option SignResponse
read_response [] = none
read_response (zero ∷ bytes) = some sign_failed
read_response (suc _ ∷ bytes) = some (signature bytes)

response_back :
    (r : SignResponse) (b : Bytes) → some (write_response r) ≡ some b → read_response b ≡ some r
response_back (signature sig) b h = rw (sym (some-injective _ _ h)) refl
response_back sign_failed b h = rw (sym (some-injective _ _ h)) refl

abbrev response_codec : Codec SignResponse
response_codec = record {
  to_stdvec = λ r. some (write_response r);
  from_bytes = read_response;
  from_to = λ r b h. response_back r b h;
}

-- The first response comes in two pieces, the second of them after the next job was sent.
abbrev slow : List Job
slow =
    record { text = 65 ∷ []; is_written = true; arrives = 0 ∷ 0 ∷ 0 ∷ []; closed = false }
    ∷ record { text = 66 ∷ []; is_written = true; arrives = 2 ∷ 1 ∷ 7 ∷ []; closed = false }
    ∷ []

abbrev prompt : List Job
prompt =
    record {
      text = 65 ∷ [];
      is_written = true;
      arrives = 0 ∷ 0 ∷ 0 ∷ 2 ∷ 1 ∷ 7 ∷ [];
      closed = false;
    }
    ∷ []

abbrev sign : Bytes → Option Bytes
sign text = some (7 ∷ [])

streamed :
    stream_of response_codec (answer_all sign (requests_at prompt (5 ∷ [])) (new 0))
    ≡ some (0 ∷ 0 ∷ 0 ∷ 2 ∷ 1 ∷ 7 ∷ [])
unfolding sign_write to_be_bytes answer_all allow_at refill spend new
streamed = refl

serve_jobs-IsSigned_example : IsSigned sign (serve_jobs bytes_codec response_codec prompt []) prompt
serve_jobs-IsSigned_example =
    serve_jobs-IsSigned sign bytes_codec response_codec prompt (5 ∷ []) (new 0) [] streamed refl

served : serve_jobs bytes_codec response_codec prompt [] ≡ some (7 ∷ []) ∷ []
unfolding serve_jobs sign_once sign_write sign_read read_body from_be_bytes
served = refl

-- No job gets the late signature.
not_served : serve_jobs bytes_codec response_codec slow [] ≡ none ∷ none ∷ []
unfolding serve_jobs sign_once sign_write sign_read read_body from_be_bytes
not_served = refl
