-- ===== src/Client/Login/Equations.antt =====
-- One round of a login, by what its response comes to.
-- What `ask` and `answer_challenge` come to.
use quish.Base.{ℕ, zero, suc, ◌≡◌, refl, ◌⊎◌, inl, inr, Option, some}
use quish.Base.Text.{Bytes}
use quish.Proto.Frame.{Codec}
use quish.Proto.Message.{Challenge, ChallengeAnswer}
use quish.Auth.Types.{Base64}
use quish.Client.Target.{Target}
use quish.Client.Login.{
  Peer, Step, finished, asked, rounds, ask, answer_challenge, OpenError, Opened, failed,
  authentication_failed,
}

pub Step-cases :
    (s : Step) → ((end : Opened) × (s ≡ finished end)) ⊎ ((c : Challenge) × (s ≡ asked c))
Step-cases (finished end) = inl (end, refl)
Step-cases (asked c) = inr (c, refl)

pub header-cases :
    (h : OpenError ⊎ Bytes) → ((e : OpenError) × (h ≡ inl e)) ⊎ ((v : Bytes) × (h ≡ inr v))
header-cases (inl e) = inl (e, refl)
header-cases (inr v) = inr (v, refl)

module _ (base64 : Base64) (challenges : Codec Challenge) (answers : Codec ChallengeAnswer)
    (to_string : ℕ → Bytes) {W : Type 0} (peer : Peer W) (target : Target)
    (authorization : Bytes) where
  abbrev run : ℕ → Option Bytes → W → Opened × W
  run = rounds base64 challenges answers to_string peer target authorization

  abbrev asks : Option Bytes → W → Step × W
  asks = ask base64 challenges answers to_string peer target authorization

  abbrev answers_with : Challenge → W → (OpenError ⊎ Bytes) × W
  answers_with = answer_challenge base64 challenges answers to_string peer target authorization

  pub rounds_finished :
      (left : ℕ) (answer : Option Bytes) (w : W) {end : Opened}
      → (asks answer w).0 ≡ finished end
      → run left answer w ≡ (end, (asks answer w).1)
  unfolding rounds
  rounds_finished zero answer w e = rw (rounds, e) refl
  rounds_finished (suc left) answer w e = rw (rounds, e) refl

  pub rounds_last :
      (answer : Option Bytes) (w : W) {c : Challenge}
      → (asks answer w).0 ≡ asked c
      → run zero answer w ≡ (failed authentication_failed, (asks answer w).1)
  unfolding rounds
  rounds_last answer w e = rw (rounds, e) refl

  pub rounds_unread :
      (left : ℕ) (answer : Option Bytes) (w : W) {c : Challenge} {x : OpenError}
      → (asks answer w).0 ≡ asked c
      → (answers_with c (asks answer w).1).0 ≡ inl x
      → run (suc left) answer w ≡ (failed x, (answers_with c (asks answer w).1).1)
  unfolding rounds
  rounds_unread left answer w e f = rw (rounds, e, f) refl

  pub rounds_next :
      (left : ℕ) (answer : Option Bytes) (w : W) {c : Challenge} {v : Bytes}
      → (asks answer w).0 ≡ asked c
      → (answers_with c (asks answer w).1).0 ≡ inr v
      → run (suc left) answer w ≡ run left (some v) (answers_with c (asks answer w).1).1
  unfolding rounds
  rounds_next left answer w e f = rw (rounds, e, f) refl
