-- ===== src/Client/Login/Rounds.antt =====
-- What the client sends while it opens a channel.
use quish.Base.{
  ℕ, zero, suc, ◌+◌, ◌≤◌, ◌≡◌, refl, ap, ◌⊎◌, inl, inr, Option, none, some, List, [], ◌∷◌, arith,
  Option-cases, length, All,
}
use quish.Base.Text.{Bytes}
use quish.Proto.Frame.{Codec}
use quish.Proto.Message.{Challenge, ChallengeAnswer}
use quish.Auth.Types.{Base64, Prompt}
use quish.Client.Target.{Target}
use quish.Client.Login.{
  ConnectRequest, build_connect_request_with, Peer, read_all, build_challenge_answer, Step, rounds,
  ask, answer_challenge, open_channel, OpenError, Opened,
}
use quish.Client.Login.Equations.{
  Step-cases, header-cases, rounds_finished, rounds_last, rounds_unread, rounds_next,
}

-- The same peer, with a list of the requests it got, the last one first.
abbrev pub logged : {W : Type 0} → Peer W → Peer (W × List ConnectRequest)
logged peer = record {
  exchange = λ req w. let (resp, w1) = peer.exchange req w.0 in (resp, (w1, req ∷ w.1));
  read = λ p w. let (line, w1) = peer.read p w.0 in (line, (w1, w.1));
}

module _ {W : Type 0} (peer : Peer W) where
  read_all-log :
      (ps : List Prompt) (w : W × List ConnectRequest)
      → (read_all (logged peer).read ps w).1.1 ≡ w.1
  unfolding read_all
  read_all-log [] w = refl
  read_all-log (p ∷ ps) w = elim (Option-cases (peer.read p w.0).0) [
    | inl e ↦ rw (read_all, e) refl
    | inr (l, e) ↦ rw (read_all, e) (read_all-log ps ((peer.read p w.0).1, w.1))
  ]

module _ (base64 : Base64) (challenges : Codec Challenge) (answers : Codec ChallengeAnswer)
    (to_string : ℕ → Bytes) {W : Type 0} (peer : Peer W) (target : Target)
    (authorization : Bytes) where
  -- A log whose requests are those of this target and these credentials.
  pub IsLog : List ConnectRequest → Type 0
  IsLog = All (λ req.
      req ≡ build_connect_request_with to_string target authorization req.challenge_response)

  abbrev run : ℕ → Option Bytes → W × List ConnectRequest → Opened × (W × List ConnectRequest)
  run = rounds base64 challenges answers to_string (logged peer) target authorization

  abbrev asks : Option Bytes → W × List ConnectRequest → Step × (W × List ConnectRequest)
  asks = ask base64 challenges answers to_string (logged peer) target authorization

  abbrev answers_with :
      Challenge → W × List ConnectRequest → (OpenError ⊎ Bytes) × (W × List ConnectRequest)
  answers_with =
      answer_challenge base64 challenges answers to_string (logged peer) target authorization

  answer_challenge-log :
      (c : Challenge) (w : W × List ConnectRequest) → (answers_with c w).1.1 ≡ w.1
  unfolding answer_challenge build_challenge_answer
  answer_challenge-log c w = read_all-log peer c.prompts w

  abbrev IsBounded : ℕ → W × List ConnectRequest → W × List ConnectRequest → Type 0
  IsBounded n w w' = IsLog w'.1 × (length w'.1 ≤ length w.1 + n)

  asks-IsBounded :
      (answer : Option Bytes) (w : W × List ConnectRequest)
      → IsLog w.1
      → IsBounded 1 w (asks answer w).1
  unfolding ask IsLog
  asks-IsBounded answer w h = ((refl, h), omega arith)

  rounds-IsBounded :
      (left : ℕ) (answer : Option Bytes) (w : W × List ConnectRequest)
      → IsLog w.1
      → IsBounded (suc left) w (run left answer w).1
  rounds-IsBounded zero answer w h =
      let once = asks-IsBounded answer w h in
      elim (Step-cases (asks answer w).0) [
        | inl (end, e) ↦
            rw
              (rounds_finished base64 challenges answers to_string (logged peer) target
                authorization zero answer w e)
              once
        | inr (c, e) ↦
            rw
              (rounds_last base64 challenges answers to_string (logged peer) target authorization
                answer w e)
              once
      ]
  rounds-IsBounded (suc left) answer w h =
      let once = asks-IsBounded answer w h in
      elim (Step-cases (asks answer w).0) [
        | inl (end, e) ↦
            rw
              (rounds_finished base64 challenges answers to_string (logged peer) target
                authorization (suc left) answer w e)
              (once.0, omega (arith, once.1))
        | inr (c, e) ↦
            let w1 = (asks answer w).1 in
            let kept = answer_challenge-log c w1 in
            elim (header-cases (answers_with c w1).0) [
              | inl (x, e') ↦
                  rw
                    (rounds_unread base64 challenges answers to_string (logged peer) target
                      authorization left answer w e e')
                    (rw kept (once.0, omega (arith, once.1)))
              | inr (v, e') ↦
                  let rest =
                    rounds-IsBounded left (some v) (answers_with c w1).1 (rw kept once.0) in
                  rw
                    (rounds_next base64 challenges answers to_string (logged peer) target
                      authorization left answer w e e')
                    (rest.0, omega (arith, rest.1, ap length kept, once.1))
            ]
      ]

  -- Whatever the server and the user answer, the client sends four CONNECTs at most for a channel,
  -- all for this target with these credentials.
  pub open_channel-IsBounded :
      (w : W)
      → IsLog
          (open_channel base64 challenges answers to_string
            (logged peer)
            target
            authorization
            (w, [])).1.1
        × (length
              (open_channel base64 challenges answers to_string
                (logged peer)
                target
                authorization
                (w, [])).1.1
            ≤ 4)
  unfolding open_channel IsLog
  open_channel-IsBounded w = rounds-IsBounded 3 none (w, []) tt
