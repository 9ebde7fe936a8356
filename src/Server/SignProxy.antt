-- ===== src/Server/SignProxy.antt =====
-- quish-server/src/signproxy.rs: the thread that has the host key's owner sign, with `sign_write`
-- and `sign_read` of quish-server/src/ipc.rs, and quish-server/src/monitor.rs: the answers of
-- `spawn_sign_thread`. The key and rustls are outside: `sign` is `sign_with`.
pub mod Framing
pub mod Replies
pub mod Signed
mod Tests
use quish.Base.{
  ℕ, zero, suc, ◌+◌, ◌-◌, ◌*◌, ◌/◌, ◌%◌, ◌^◌, ◌≤◌, ◌<◌, min, ◌≡◌, refl, sym, ap, ◌∙◌, ◌≢◌, ◌↔◌, ◌⊎◌,
  inl, inr, Bool, true, false, not, ◌&&◌, ◌||◌, Option, none, some, List, [], ◌∷◌, ◌++◌, map,
  reverse, arith, ltb, leb, ◌==◌, if◌then◌else◌, ltb→lt, lt→ltb, ltb→ge, ge→ltb, leb→le, ==_iff,
  ==_refl, Bool-cases, Option-cases, ◌>>=◌, unwrap_or, is_some, length, get_elem?, get_or, take,
  drop, is_empty, any, all, retain, All, length-append, take-append_length, drop-append_length,
  take-append-drop, take-append_le, drop-append_le, length-take, length-drop,
}
use quish.Base.Text.{Bytes}
use quish.Proto.Frame.{Codec, to_be_bytes, from_be_bytes}
use quish.Server.SignThrottle.{SignThrottle, allow_at}

abbrev pub ipc_cap : ℕ
ipc_cap = 64 * 1024

-- The bytes that `sign_write` puts on the stream; `none` is its error before the first of them.
unfoldable pub sign_write : {T : Type 0} → Codec T → T → Option Bytes
sign_write codec msg = elim (codec.to_stdvec msg) [
  | none ↦ none
  | some bytes ↦
      if ltb ipc_cap (length bytes) then none else some (to_be_bytes (length bytes) ++ bytes)
]

-- `Ok(Some(msg))`, `Ok(None)` and `Err(e)`.
pub data Read (T : Type 0) : Type 0 where
  message : T → Read T
  ended failed : Read T

abbrev pub or_failed : {T : Type 0} → Option T → Read T
or_failed none = failed
or_failed (some m) = message m

-- The body, after its length.
unfoldable pub read_body : {T : Type 0} → Codec T → ℕ → Bytes → Read T × Bytes
read_body codec n bytes =
    if ltb ipc_cap n
    then (failed, bytes)
    else if ltb (length bytes) n
    then (failed, [])
    else (or_failed (codec.from_bytes (take n bytes)), drop n bytes)

-- `sign_read` when these bytes arrive until its timeout, or until the peer closes; a short read
-- takes what there is.
unfoldable pub sign_read : {T : Type 0} → Codec T → Bytes → Bool → Read T × Bytes
unfolding read_body
sign_read codec bytes closed =
    if ltb (length bytes) 4
    then ((if closed then ended else failed), [])
    else read_body codec (from_be_bytes (take 4 bytes)) (drop 4 bytes)

pub data SignResponse : Type 0 where
  signature : Bytes → SignResponse
  sign_failed : SignResponse

pub data SignOutcome : Type 0 where
  signed : Bytes → SignOutcome
  refused broken : SignOutcome

-- A job, with what happens to the socket while the thread serves it: whether the request is
-- written, and the bytes that arrive.
pub record Job : Type 0 where
  pub text : Bytes
  pub is_written : Bool
  pub arrives : Bytes
  pub closed : Bool

abbrev pub outcome_of : Read SignResponse → SignOutcome
outcome_of (message (signature sig)) = signed sig
outcome_of (message sign_failed) = refused
outcome_of ended = broken
outcome_of failed = broken

module _ (requests : Codec Bytes) (responses : Codec SignResponse) where
  -- `sign_once` over the bytes that no reply took so far.
  unfoldable pub sign_once : Job → Bytes → SignOutcome × Bytes
  unfolding sign_read
  sign_once job buffered = elim (sign_write requests job.text) [
    | none ↦ (broken, buffered)
    | some frame ↦
        let (read, rest) = sign_read responses (buffered ++ job.arrives) job.closed in
        if job.is_written then (outcome_of read, rest) else (broken, buffered)
  ]

  -- The loop of the thread: the reply to each job. After a broken one it has ended, and `send`
  -- finds nobody.
  unfoldable pub serve_jobs : List Job → Bytes → List (Option Bytes)
  unfolding sign_once
  serve_jobs [] buffered = []
  serve_jobs (job ∷ jobs) buffered =
      let (outcome, rest) = sign_once job buffered in
      elim outcome [
        | signed sig ↦ some sig ∷ serve_jobs jobs rest
        | refused ↦ none ∷ serve_jobs jobs rest
        | broken ↦ map (λ j. none) (job ∷ jobs)
      ]

-- What the monitor answers to the requests that it reads, at their times.
unfoldable pub answer_all :
    (Bytes → Option Bytes) → List (Bytes × ℕ) → SignThrottle → List SignResponse
answer_all sign [] throttle = []
answer_all sign ((text, now) ∷ requests) throttle =
    let (allowed, throttle') = allow_at throttle now in
    let rest = answer_all sign requests throttle' in
    let reply =
      (if allowed
        then elim (sign text) [ none ↦ sign_failed | some sig ↦ signature sig ]
        else sign_failed) in
    reply ∷ rest
