-- ===== src/Server/SignProxy/Signed.antt =====
-- The signing thread of the worker together with that of the monitor.
-- The requests of the jobs, as the monitor reads them at these times.
use quish.Base.{
  ℕ, ◌≡◌, refl, ap, Bool, true, false, Option, none, some, List, [], ◌∷◌, ◌++◌, if◌then◌else◌,
}
use quish.Base.Text.{Bytes}
use quish.Proto.Frame.{Codec}
use quish.Server.SignProxy.{SignResponse, signature, sign_failed, Job, serve_jobs, answer_all}
use quish.Server.SignProxy.Replies.{stream_of, arrivals, Belong, serve_jobs-Belong}
use quish.Server.SignThrottle.{SignThrottle, allow_at}

abbrev pub requests_at : List Job → List ℕ → List (Bytes × ℕ)
requests_at [] times = []
requests_at (job ∷ jobs) [] = []
requests_at (job ∷ jobs) (now ∷ times) = (job.text, now) ∷ requests_at jobs times

no_times : (jobs : List Job) → requests_at jobs [] ≡ []
no_times [] = refl
no_times (job ∷ jobs) = refl

abbrev in_signature : SignResponse → Option Bytes
in_signature (signature sig) = some sig
in_signature sign_failed = none

module _ (sign : Bytes → Option Bytes) where
  -- Each signature is the key's, of the text of that very job.
  abbrev pub IsSigned : List (Option Bytes) → List Job → Type 0
  IsSigned [] jobs = Unit {0}
  IsSigned (none ∷ replies) [] = IsSigned replies []
  IsSigned (none ∷ replies) (job ∷ jobs) = IsSigned replies jobs
  IsSigned (some sig ∷ replies) [] = some sig ≡ none
  IsSigned (some sig ∷ replies) (job ∷ jobs) = (sign job.text ≡ some sig) × IsSigned replies jobs

  signed_text :
      (allowed : Bool) (o : Option Bytes) {sig : Bytes}
      → (if allowed then elim o [ none ↦ sign_failed | some s ↦ signature s ] else sign_failed)
        ≡ signature sig
      → o ≡ some sig
  signed_text true none h = absurd (cc)
  signed_text true (some s) h = ap in_signature h
  signed_text false o h = absurd (cc)

  Belong-IsSigned :
      (replies : List (Option Bytes)) (jobs : List Job) (times : List ℕ) (throttle : SignThrottle)
      → Belong replies (answer_all sign (requests_at jobs times) throttle)
      → IsSigned replies jobs
  unfolding answer_all
  Belong-IsSigned [] jobs times throttle h = tt
  Belong-IsSigned (none ∷ replies) [] times throttle h = Belong-IsSigned replies [] times throttle h
  Belong-IsSigned (none ∷ replies) (job ∷ jobs) [] throttle h =
      Belong-IsSigned replies jobs [] throttle (rw (no_times jobs) h)
  Belong-IsSigned (none ∷ replies) (job ∷ jobs) (now ∷ times) throttle h =
      Belong-IsSigned replies jobs times (allow_at throttle now).1 h
  Belong-IsSigned (some sig ∷ replies) [] times throttle h = h
  Belong-IsSigned (some sig ∷ replies) (job ∷ jobs) [] throttle h = absurd (cc)
  Belong-IsSigned (some sig ∷ replies) (job ∷ jobs) (now ∷ times) throttle (h, hs) = (
    signed_text (allow_at throttle now).0 (sign job.text) h,
    Belong-IsSigned replies jobs times (allow_at throttle now).1 hs,
  )

  -- However the answers of the monitor, at its rate limit, are delayed and cut into pieces on their
  -- way: a job gets the signature of its own text, or none.
  pub serve_jobs-IsSigned :
      (requests : Codec Bytes) (responses : Codec SignResponse) (jobs : List Job) (times : List ℕ)
      (throttle : SignThrottle) (tail : Bytes) {stream : Bytes}
      → stream_of responses (answer_all sign (requests_at jobs times) throttle) ≡ some stream
      → arrivals jobs ++ tail ≡ stream
      → IsSigned (serve_jobs requests responses jobs []) jobs
  serve_jobs-IsSigned requests responses jobs times throttle tail s j =
      Belong-IsSigned (serve_jobs requests responses jobs []) jobs times throttle (
        serve_jobs-Belong requests responses jobs
          (answer_all sign (requests_at jobs times) throttle) [] tail s j)
