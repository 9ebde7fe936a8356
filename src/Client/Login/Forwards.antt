-- ===== src/Client/Login/Forwards.antt =====
-- A login with one challenge, as TOTP asks it: the channels of a session and those of a forward.
-- A request for this target, on a connection with room for failures, reaches the backend.
use quish.Base.{
  ℕ, ◌+◌, ◌<◌, ◌≡◌, refl, ap, ◌∙◌, ◌⊎◌, inl, inr, true, false, Option, none, some, List, [], ◌∷◌,
  ◌++◌, arith, leb, Option-cases, ◌>>=◌, unwrap_or,
}
use quish.Base.Text.{Bytes, codes}
use quish.Proto.Message.{
  Challenge, ChallengeAnswer, decode_header, encode_header, version_supported,
}
use quish.Proto.Message.Headers.{decode_header-encode_header}
use quish.Auth.Types.{Prompt}
use quish.Client.Target.{Target}
use quish.Client.Login.{
  ConnectRequest, build_connect_request_with, read_all, build_challenge_answer, classify, Step,
  finished, asked, ask, answer_challenge, open_channel, OpenError, opened, failed, open_forward,
  rejected_status, socket_target,
}
use quish.Client.Login.Equations.{rounds_finished, rounds_next}
use quish.Server.Transport.{
  AuthOutcome, allowed, denied, challenged, gate, attempt, handle_request, conclude,
}
use quish.Client.Login.Wire.{
  Server, status_code, reply_response, received, Setting, served_by, server,
}
use quish.Base.Text.Laws.{bytes_eq_refl}

abbrev pub IsAdmitted : Setting → (ℕ → Bytes) → Target → Server → Type 0
IsAdmitted s to_string target w =
    (s.path_of
        (codes "https://" ++ socket_target target.host (to_string target.port) ++ target.path)
      ≡ s.path)
    × (version_supported (some (to_string 2)) ≡ true)
    × (w.counters.conn_fails < s.max_auth_fails)

-- What the backend is given for an answer's header.
abbrev pub answer_in : Setting → Option Bytes → Option ChallengeAnswer
answer_in s answer = answer >>= λ v. decode_header s.base64 s.answers v

over : (a b : ℕ) → b < a → leb a b ≡ false
over a b h = ground arith

module _ (s : Setting) (to_string : ℕ → Bytes) (target : Target) (authorization : Bytes) where
  abbrev asks : Option Bytes → Server → Step × Server
  asks = ask s.base64 s.challenges s.answers to_string (server s) target authorization

  abbrev sent : Option Bytes → ConnectRequest
  sent answer = build_connect_request_with to_string target authorization answer

  admits :
      (answer : Option Bytes) (w : Server)
      → IsAdmitted s to_string target w
      → gate s.base64 s.answers s.path s.max_auth_fails w.counters.conn_fails
          (received s.path_of (sent answer))
        ≡ attempt (some authorization) (answer_in s answer)
  unfolding gate
  admits answer w (p, v, f) = rw (gate, p, v, bytes_eq_refl s.path) (rw (over _ _ f) refl)

  served-attempt :
      (answer : Option Bytes) (w : Server) {o : Option AuthOutcome}
      → IsAdmitted s to_string target w
      → s.backend w.requests (some authorization) (answer_in s answer) ≡ o
      → served_by s (sent answer) w
        ≡ conclude s.ip (s.now w.requests) (unwrap_or o denied) w.counters
  unfolding served_by handle_request
  served-attempt answer w h e = rw (handle_request, admits answer w h) (rw e refl)

  asks-allowed :
      (answer : Option Bytes) (w : Server)
      → IsAdmitted s to_string target w
      → s.backend w.requests (some authorization) (answer_in s answer) ≡ some allowed
      → (asks answer w).0 ≡ finished opened
  unfolding ask server classify reply_response status_code conclude
  asks-allowed answer w h e = rw (ask, served-attempt answer w h e) refl

  abbrev after : Server → Server
  after w = record w { requests = w.requests + 1 }

  asks-challenged :
      (answer : Option Bytes) (w : Server) {c : Challenge} {v : Bytes}
      → IsAdmitted s to_string target w
      → s.backend w.requests (some authorization) (answer_in s answer) ≡ some (challenged c)
      → encode_header s.base64 s.challenges c ≡ some v
      → asks answer w ≡ (asked c, after w)
  unfolding ask server classify reply_response status_code conclude
  asks-challenged answer w h e f =
      rw (ask, served-attempt answer w h e, conclude, reply_response, f)
        (rw (classify, decode_header-encode_header s.base64 s.challenges _ f) refl)

  abbrev answers_with : Challenge → Server → (OpenError ⊎ Bytes) × Server
  answers_with =
      answer_challenge s.base64 s.challenges s.answers to_string (server s) target authorization

  answered :
      (c : Challenge) (w : Server) {responses : List Bytes} {v : Bytes}
      → (read_all (server s).read c.prompts w).0 ≡ some responses
      → encode_header s.base64 s.answers (record { token = c.token; responses = responses })
        ≡ some v
      → (answer_challenge s.base64 s.challenges s.answers to_string
          (server s)
          target
          authorization
          c
          w).0
        ≡ inr v
  unfolding answer_challenge build_challenge_answer
  answered c w r f = rw (answer_challenge, build_challenge_answer, r, f) refl

  read_all_keeps :
      (ps : List Prompt) (w : Server)
      → ((read_all (server s).read ps w).1.requests ≡ w.requests)
        × ((read_all (server s).read ps w).1.counters ≡ w.counters)
  unfolding read_all server
  read_all_keeps [] w = (refl, refl)
  read_all_keeps (p ∷ ps) w =
      let w1 : Server = record w { typed = w.typed + 1 } in
      elim (Option-cases (s.lines w.typed p)) [
        | inl e ↦ rw (read_all, e) (refl, refl)
        | inr (l, e) ↦ rw (read_all, e) (read_all_keeps ps w1)
      ]

  refused :
      (w : Server) {c : Challenge} {v : Bytes}
      → IsAdmitted s to_string target w
      → s.backend w.requests (some authorization) none ≡ some (challenged c)
      → encode_header s.base64 s.challenges c ≡ some v
      → open_forward s.base64 s.challenges s.answers to_string (server s) target authorization w
        ≡ (failed (rejected_status 401), after w)
  unfolding open_forward server reply_response status_code conclude
  refused w h e f =
      rw (open_forward, served-attempt none w h e, conclude, reply_response, f)
        (rw (server, served-attempt none w h e) refl)

  -- On a server whose backend asks one challenge and allows its answer, as the registry does once
  -- a second factor is configured, with a client whose request reaches the backend, whose user types a line for each prompt and whose headers
  -- can be written: a session channel opens, and a forward channel, which sends its one CONNECT
  -- without an answer, ends with the status 401 and no channel on the server.
  pub open_forward_challenged :
      (w : Server) {c : Challenge} {responses : List Bytes} {v v' : Bytes}
      → IsAdmitted s to_string target w
      → s.backend w.requests (some authorization) none ≡ some (challenged c)
      → encode_header s.base64 s.challenges c ≡ some v
      → (read_all (server s).read c.prompts (record w { requests = w.requests + 1 })).0
        ≡ some responses
      → encode_header s.base64 s.answers (record { token = c.token; responses = responses })
        ≡ some v'
      → s.backend
          (w.requests + 1)
          (some authorization)
          (some (record { token = c.token; responses = responses }))
        ≡ some allowed
      → ((open_channel s.base64 s.challenges s.answers to_string
            (server s)
            target
            authorization
            w).0
          ≡ opened)
        × ((open_forward s.base64 s.challenges s.answers to_string
              (server s)
              target
              authorization
              w)
            ≡ (failed (rejected_status 401), record w { requests = w.requests + 1 }))
  unfolding open_channel
  open_forward_challenged w {c} {v' = v'} (path, ver, room) b f r g b' =
      let h : IsAdmitted s to_string target w = (path, ver, room) in
      let first = asks-challenged none w h b f in
      let first_step = ap (λ x. x.0) first in
      let header : (answers_with c (asks none w).1).0 ≡ inr v' =
        rw first (answered _ (after w) r g) in
      let w2 : Server = (answers_with c (asks none w).1).1 in
      let same : (w2.requests ≡ w.requests + 1) × (w2.counters ≡ w.counters) =
        rw first (read_all_keeps c.prompts (after w)) in
      let decoded = decode_header-encode_header s.base64 s.answers _ g in
      let again = asks-allowed (some v') w2 (path, ver, rw same.1 room) (rw (same.0, decoded) b') in
      (
        ap (λ x. x.0)
            (rounds_next s.base64 s.challenges s.answers to_string (server s) target authorization 2
                none w first_step header
              ∙ rounds_finished s.base64 s.challenges s.answers to_string (server s) target
                  authorization 2 (some v') w2 again),
        refused w h b f,
      )
