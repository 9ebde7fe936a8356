-- ===== src/Client/Login/Served.antt =====
-- A login against `handle_request`: which of the client's channels the server serves.
use quish.Base.{
  ℕ, zero, suc, ◌+◌, ◌≡◌, refl, sym, ap, ◌∙◌, ◌⊎◌, inl, inr, Bool, Option, none, some, List, [],
  ◌∷◌, leb, if◌then◌else◌, Bool-cases, Option-cases, ◌>>=◌, unwrap_or,
}
use quish.Base.Text.{Bytes}
use quish.Proto.Frame.{Codec}
use quish.Proto.Message.{
  Challenge, ChallengeAnswer, decode_header, encode_header, version_supported,
}
use quish.Proto.Message.Headers.{decode_header-encode_header}
use quish.Auth.Types.{Base64, Prompt}
use quish.Client.Target.{Target}
use quish.Client.Login.{
  build_connect_request_with, read_all, build_challenge_answer, classify, Step, asked, rounds, ask,
  answer_challenge, max_challenge_rounds, open_channel, OpenError, Opened,
}
use quish.Client.Login.Equations.{
  Step-cases, header-cases, rounds_finished, rounds_last, rounds_unread, rounds_next,
}
use quish.Server.RateLimit.{IpAddr}
use quish.Server.Transport.{
  Incoming, AuthOutcome, allowed, denied, challenged, gate, handle_request, conclude, Counters,
  is_quish,
}
use quish.Client.Login.Wire.{
  Server, status_code, reply_response, received, Setting, served_by, server, is_opened, is_opening,
}

module _ (base64 : Base64) (challenges : Codec Challenge) where
  conclude_opening :
      (ip : IpAddr) (now : ℕ) (o : AuthOutcome) (k : Counters)
      → is_opening
          (classify base64 challenges (reply_response base64 challenges (conclude ip now o k).0.0))
        ≡ (conclude ip now o k).0.1
  unfolding classify reply_response conclude status_code
  conclude_opening ip now allowed k = refl
  conclude_opening ip now denied k = refl
  conclude_opening ip now (challenged c) k =
      elim (Option-cases (encode_header base64 challenges c)) [
        | inl e ↦ rw (classify, reply_response, e) refl
        | inr (v, e) ↦
            rw (classify, reply_response, e)
              (rw (decode_header-encode_header base64 challenges c e) refl)
      ]

  handle_opening :
      (answers : Codec ChallengeAnswer) (path : Bytes) (max_auth_fails : ℕ) (ip : IpAddr) (now : ℕ)
      (backend : Option Bytes → Option ChallengeAnswer → Option AuthOutcome) (req : Incoming)
      (k : Counters)
      → is_opening (
          classify base64 challenges (
            reply_response base64 challenges
              (handle_request base64 answers path max_auth_fails ip now backend req k).0.0))
        ≡ (handle_request base64 answers path max_auth_fails ip now backend req k).0.1
  unfolding handle_request gate classify reply_response status_code
  handle_opening answers path max_auth_fails ip now backend req k =
      let answer = req.challenge_response >>= λ v. decode_header base64 answers v in
      let concluded =
        conclude_opening ip now (unwrap_or (backend req.authorization answer) denied) k in
      elim (Bool-cases (is_quish path req)) [
        | inr e ↦ rw (handle_request, gate, e) refl
        | inl e ↦ elim (Bool-cases (version_supported req.version)) [
          | inr e' ↦ rw (handle_request, gate, e, e') refl
          | inl e' ↦ elim (Bool-cases (leb max_auth_fails k.conn_fails)) [
            | inr e'' ↦ rw (handle_request, gate, e, e', e'') concluded
            | inl e'' ↦ rw (handle_request, gate, e, e', e'') refl
          ]
        ]
      ]

module _ (s : Setting) (to_string : ℕ → Bytes) (target : Target) (authorization : Bytes) where
  abbrev run : ℕ → Option Bytes → Server → Opened × Server
  run = rounds s.base64 s.challenges s.answers to_string (server s) target authorization

  abbrev asks : Option Bytes → Server → Step × Server
  asks = ask s.base64 s.challenges s.answers to_string (server s) target authorization

  abbrev answers_with : Challenge → Server → (OpenError ⊎ Bytes) × Server
  answers_with =
      answer_challenge s.base64 s.challenges s.answers to_string (server s) target authorization

  abbrev served : Bool → ℕ → ℕ
  served b n = if b then n + 1 else n

  asks-channels :
      (answer : Option Bytes) (w : Server)
      → (asks answer w).1.channels ≡ served (is_opening (asks answer w).0) w.channels
  unfolding ask server served_by
  asks-channels answer w =
      ap (λ b. served b w.channels)
        (sym (
          handle_opening s.base64 s.challenges s.answers s.path s.max_auth_fails s.ip
            (s.now w.requests) (s.backend w.requests)
            (received s.path_of (build_connect_request_with to_string target authorization answer))
            w.counters))

  read_all-channels :
      (ps : List Prompt) (w : Server) → (read_all (server s).read ps w).1.channels ≡ w.channels
  unfolding read_all server
  read_all-channels [] w = refl
  read_all-channels (p ∷ ps) w =
      let w1 : Server = record w { typed = w.typed + 1 } in
      elim (Option-cases (s.lines w.typed p)) [
        | inl e ↦ rw (read_all, e) refl
        | inr (l, e) ↦ rw (read_all, e) (read_all-channels ps w1)
      ]

  answers_with-channels : (c : Challenge) (w : Server) → (answers_with c w).1.channels ≡ w.channels
  unfolding answer_challenge build_challenge_answer
  answers_with-channels c w = read_all-channels c.prompts w

  ends_without :
      (answer : Option Bytes) (w : Server) {c : Challenge}
      → (asks answer w).0 ≡ asked c
      → (asks answer w).1.channels ≡ w.channels
  ends_without answer w e = asks-channels answer w ∙ ap (λ x. served (is_opening x) w.channels) e

  rounds-channels :
      (left : ℕ) (answer : Option Bytes) (w : Server)
      → (run left answer w).1.channels ≡ served (is_opened (run left answer w).0) w.channels
  rounds-channels zero answer w = elim (Step-cases (asks answer w).0) [
    | inl (end, e) ↦
        rw
          (rounds_finished s.base64 s.challenges s.answers to_string (server s) target authorization
            zero answer w e)
          (asks-channels answer w ∙ ap (λ x. served (is_opening x) w.channels) e)
    | inr (c, e) ↦
        rw
          (rounds_last s.base64 s.challenges s.answers to_string (server s) target authorization
            answer w e)
          (ends_without answer w e)
  ]
  rounds-channels (suc left) answer w = elim (Step-cases (asks answer w).0) [
    | inl (end, e) ↦
        rw
          (rounds_finished s.base64 s.challenges s.answers to_string (server s) target authorization
            (suc left) answer w e)
          (asks-channels answer w ∙ ap (λ x. served (is_opening x) w.channels) e)
    | inr (c, e) ↦
        let w1 = (asks answer w).1 in
        let kept = answers_with-channels c w1 ∙ ends_without answer w e in
        elim (header-cases (answers_with c w1).0) [
          | inl (x, e') ↦
              rw
                (rounds_unread s.base64 s.challenges s.answers to_string (server s) target
                  authorization left answer w e e')
                kept
          | inr (v, e') ↦
              rw
                (rounds_next s.base64 s.challenges s.answers to_string (server s) target
                  authorization left answer w e e')
                (rounds-channels left (some v) (answers_with c w1).1 ∙ ap (served _) kept)
        ]
  ]

  -- However the server's backend and the user answer, the client ends with an open channel exactly
  -- when the server has begun to serve one for it, and then one only: a login that fails, at its
  -- first round or its last, leaves no channel behind on the server.
  pub open_channel-channels :
      (w : Server)
      → (open_channel s.base64 s.challenges s.answers to_string
          (server s)
          target
          authorization
          w).1.channels
        ≡ (if is_opened
              (open_channel s.base64 s.challenges s.answers to_string
                (server s)
                target
                authorization
                w).0
            then w.channels + 1
            else w.channels)
  unfolding open_channel
  open_channel-channels w = rounds-channels max_challenge_rounds none w
