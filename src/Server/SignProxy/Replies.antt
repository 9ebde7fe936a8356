-- ===== src/Server/SignProxy/Replies.antt =====
-- Which reply a job gets.
-- The bytes of these responses, in their order; `none` if one of them cannot be written.
use quish.Base.{
  ◌≡◌, refl, sym, ap, ◌∙◌, ◌⊎◌, inl, inr, Bool, true, false, Option, none, some, List, [], ◌∷◌,
  ◌++◌, map, Bool-cases, Option-cases,
}
use quish.Base.Text.{Bytes}
use quish.Proto.Frame.{Codec}
use mathlib.Core.Option.{some-injective}
use mathlib.Core.List.{append_assoc}
use quish.Server.SignProxy.{
  sign_write, Read, message, ended, failed, sign_read, SignResponse, signature, sign_failed,
  SignOutcome, signed, refused, broken, Job, outcome_of, sign_once, serve_jobs,
}
use quish.Server.SignProxy.Framing.{sign_read-append, sign_read-sign_write}

abbrev pub stream_of : Codec SignResponse → List SignResponse → Option Bytes
stream_of codec [] = some []
stream_of codec (r ∷ rs) = elim (sign_write codec r) [
  | none ↦ none
  | some frame ↦ elim (stream_of codec rs) [ none ↦ none | some rest ↦ some (frame ++ rest) ]
]

abbrev pub arrivals : List Job → Bytes
arrivals [] = []
arrivals (job ∷ jobs) = job.arrives ++ arrivals jobs

-- Each signature is that of the response with the same number.
abbrev pub Belong : List (Option Bytes) → List SignResponse → Type 0
Belong [] rs = Unit {0}
Belong (none ∷ replies) [] = Belong replies []
Belong (none ∷ replies) (r ∷ rs) = Belong replies rs
Belong (some sig ∷ replies) [] = some sig ≡ none
Belong (some sig ∷ replies) (r ∷ rs) = (r ≡ signature sig) × Belong replies rs

Belong-none : {A : Type 0} (xs : List A) (rs : List SignResponse) → Belong (map (λ x. none) xs) rs
Belong-none [] rs = tt
Belong-none (x ∷ xs) [] = Belong-none xs []
Belong-none (x ∷ xs) (r ∷ rs) = Belong-none xs rs

pub Read-cases :
    {T : Type 0} (r : Read T) → ((m : T) × (r ≡ message m)) ⊎ ((r ≡ ended) ⊎ (r ≡ failed))
Read-cases (message m) = inl (m, refl)
Read-cases ended = inr (inl refl)
Read-cases failed = inr (inr refl)

abbrev in_message : {T : Type 0} → Read T → Option T
in_message (message m) = some m
in_message ended = none
in_message failed = none

module _ (responses : Codec SignResponse) where
  nothing_read : (closed : Bool) → in_message (sign_read responses [] closed).0 ≡ none
  unfolding sign_read
  nothing_read true = refl
  nothing_read false = refl

  -- What is read from the front of a stream is the front of its responses.
  front :
      (rs : List SignResponse) (bytes more : Bytes) (closed : Bool) {stream : Bytes}
      {m : SignResponse}
      → stream_of responses rs ≡ some stream
      → bytes ++ more ≡ stream
      → (sign_read responses bytes closed).0 ≡ message m
      → (rs' : List SignResponse) × (rs ≡ m ∷ rs')
        × (stream_of responses rs' ≡ some ((sign_read responses bytes closed).1 ++ more))
  front [] bytes more closed {m = m} s j h =
      let longer =
        sign_read-append responses bytes more closed closed {msg = m}
          {rest = (sign_read responses bytes closed).1}
          (ap (λ x. (x, (sign_read responses bytes closed).1)) h) in
      let nothing =
        ap (λ b. in_message (sign_read responses b closed).0) (j ∙ sym (some-injective _ _ s)) in
      absurd (cc (ap (λ x. in_message x.0) longer, nothing, nothing_read closed))
  front (r ∷ rs) bytes more closed {m = m} s j h = elim (Option-cases (sign_write responses r)) [
    | inl e ↦ absurd (cc (rw (stream_of, e) at s))
    | inr (frame, e) ↦ elim (Option-cases (stream_of responses rs)) [
      | inl e' ↦ absurd (cc (rw (stream_of, e, e') at s))
      | inr (rest, e') ↦
          let whole = some-injective _ _ (rw (stream_of, e, e') at s) in
          let longer =
            sign_read-append responses bytes more closed closed {msg = m}
              {rest = (sign_read responses bytes closed).1}
              (ap (λ x. (x, (sign_read responses bytes closed).1)) h) in
          let equal : Path (Read SignResponse × Bytes)
              (message m, (sign_read responses bytes closed).1 ++ more) (message r, rest) =
            sym longer
            ∙ ap (λ b. sign_read responses b closed) (j ∙ sym whole)
            ∙ sign_read-sign_write responses r rest closed e in
          let first = some-injective _ _ (ap (λ x. in_message x.0) equal) in
          (rs, ap (λ x. x ∷ rs) (sym first), e' ∙ ap (λ x. some x.1) (sym equal))
    ]
  ]

module _ (requests : Codec Bytes) (responses : Codec SignResponse) where
  abbrev replied : List Job → Job → SignOutcome × Bytes → List (Option Bytes)
  replied jobs job x = elim x.0 [
    | signed sig ↦ some sig ∷ serve_jobs requests responses jobs x.1
    | refused ↦ none ∷ serve_jobs requests responses jobs x.1
    | broken ↦ map (λ j. none) (job ∷ jobs)
  ]

  served_by :
      (job : Job) (jobs : List Job) (buffered : Bytes) {x : SignOutcome × Bytes}
      → sign_once requests responses job buffered ≡ x
      → serve_jobs requests responses (job ∷ jobs) buffered ≡ replied jobs job x
  unfolding serve_jobs
  served_by job jobs buffered e = ap (replied jobs job) e

  -- However the bytes of the responses are cut into what arrives during one job and the next, late
  -- ones included, and whichever requests could not be written: no job gets the signature of
  -- another one's response.
  pub serve_jobs-Belong :
      (jobs : List Job) (rs : List SignResponse) (buffered tail : Bytes) {stream : Bytes}
      → stream_of responses rs ≡ some stream
      → buffered ++ (arrivals jobs ++ tail) ≡ stream
      → Belong (serve_jobs requests responses jobs buffered) rs
  unfolding sign_once serve_jobs
  serve_jobs-Belong [] rs buffered tail s j = tt
  serve_jobs-Belong (job ∷ jobs) rs buffered tail s j =
      elim (Option-cases (sign_write requests job.text)) [
        | inl e ↦
            rw (served_by job jobs buffered {x = (broken, buffered)} (rw (sign_once, e) refl))
              (Belong-none (job ∷ jobs) rs)
        | inr (frame, e) ↦ elim (Bool-cases job.is_written) [
          | inr w ↦
              rw (served_by job jobs buffered {x = (broken, buffered)} (rw (sign_once, e, w) refl))
                (Belong-none (job ∷ jobs) rs)
          | inl w ↦
              let bytes : Bytes = buffered ++ job.arrives in
              let joined : bytes ++ (arrivals jobs ++ tail) ≡ _ =
                append_assoc buffered job.arrives (arrivals jobs ++ tail)
                ∙ ap (λ b. buffered ++ b) (sym (append_assoc job.arrives (arrivals jobs) tail))
                ∙ j in
              let rest : Bytes = (sign_read responses bytes job.closed).1 in
              let once : sign_once requests responses job buffered
                  ≡ (outcome_of (sign_read responses bytes job.closed).0, rest) =
                rw (sign_once, e, w) refl in
              elim (Read-cases (sign_read responses bytes job.closed).0) [
                | inr (inl f) ↦
                    rw (served_by job jobs buffered (once ∙ ap (λ x. (outcome_of x, rest)) f))
                      (Belong-none (job ∷ jobs) rs)
                | inr (inr f) ↦
                    rw (served_by job jobs buffered (once ∙ ap (λ x. (outcome_of x, rest)) f))
                      (Belong-none (job ∷ jobs) rs)
                | inl (sign_failed, f) ↦
                    let (rs', split, left) =
                      front responses rs bytes (arrivals jobs ++ tail) job.closed s joined f in
                    rw
                      (split, served_by job jobs buffered (once ∙ ap (λ x. (outcome_of x, rest)) f))
                      (serve_jobs-Belong jobs rs' rest tail left refl)
                | inl (signature sig, f) ↦
                    let (rs', split, left) =
                      front responses rs bytes (arrivals jobs ++ tail) job.closed s joined f in
                    rw
                      (split, served_by job jobs buffered (once ∙ ap (λ x. (outcome_of x, rest)) f))
                      (refl, serve_jobs-Belong jobs rs' rest tail left refl)
              ]
        ]
      ]
