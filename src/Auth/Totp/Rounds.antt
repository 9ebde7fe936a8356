-- ===== src/Auth/Totp/Rounds.antt =====
-- The two rounds of `TotpBackend`: what the client sees, and when the answer is `Allow`.
use quish.Base.{ℕ, ◌≡◌, refl, ◌↔◌, true, false, Option, none, some, List, [], ◌∷◌, arith, unwrap_or}
use quish.Base.Text.{Bytes}
use quish.Auth.Types.{
  Credentials, Prompt, ChallengeState, ChallengeResponse, ConnInfo, Verdict, allow, challenge, deny,
  AuthBackend,
}
use quish.Auth.Totp.{
  Hmac, TotpBackend, response_code, verify_at, complete, authenticate, open_challenge, pending_of,
  conclude,
}

-- The part of a verdict that goes to the client: whether it is in, or the token and the prompts.
pub data Seen : Type 0 where
  let_in : Seen
  asked : Bytes → List Prompt → Seen
  refused : Seen

pub seen : Verdict → Seen
seen (allow u) = let_in
seen (challenge s ps) = asked s.token ps
seen deny = refused

-- Round one always asks, with the same words, whatever the first factor says of whatever
-- credential.
pub authenticate_uniform :
    (hmac : Hmac) (t : TotpBackend) (first second : AuthBackend) (token : Bytes) (now : ℕ)
    (conn : ConnInfo) (creds other : Credentials)
    → conn.challenge ≡ none
    → (seen (authenticate hmac (record t { inner = first }) token now conn creds)
        ≡ seen (authenticate hmac (record t { inner = second }) token now conn other))
      × (seen (authenticate hmac (record t { inner = first }) token now conn creds)
          ≡ asked token (record { message = t.prompt; echo = false } ∷ []))
unfolding seen authenticate open_challenge
authenticate_uniform hmac t first second token now conn creds other h = (ground arith, ground arith)

pending_of_iff : (v : Verdict) (user : Bytes) → (pending_of v ≡ some user) ↔ (v ≡ allow user)
unfolding pending_of
pending_of_iff (allow u) user = (λ h. ground arith, λ h. ground arith)
pending_of_iff (challenge s ps) user = (λ h. absurd (cc), λ h. absurd (cc))
pending_of_iff deny user = (λ h. absurd (cc), λ h. absurd (cc))

-- The state that round one parks names a user exactly if the first factor allowed that user.
pub pending_user_iff :
    (hmac : Hmac) (t : TotpBackend) (token : Bytes) (now : ℕ) (conn : ConnInfo)
    (creds : Credentials) (user : Bytes)
    → conn.challenge ≡ none
    → (s : ChallengeState) × (ps : List Prompt) × (authenticate hmac t token now conn creds
        ≡ challenge s ps)
      × ((s.pending_user ≡ some user) ↔ (t.inner.authenticate conn creds ≡ allow user))
unfolding authenticate open_challenge
pending_user_iff hmac t token now conn creds user h =
    let v = t.inner.authenticate conn creds in
    (
      record { token = token; pending_user = pending_of v },
      record { message = t.prompt; echo = false } ∷ [],
      ground arith,
      pending_of_iff v user,
    )

abbrev Accepted : Hmac → TotpBackend → Option Bytes → Option ℕ → ℕ → Bytes → Type 0
Accepted hmac t pending code now user =
    (pending ≡ some user)
    × (c : ℕ) × (code ≡ some c)
    × (verify_at hmac (unwrap_or (t.secret_for user) []) c now ≡ true)

conclude→Accepted :
    (hmac : Hmac) (t : TotpBackend) (pending : Option Bytes) (code : Option ℕ) (now : ℕ)
    (user : Bytes)
    → conclude hmac t pending code now ≡ allow user
    → Accepted hmac t pending code now user
unfolding conclude
conclude→Accepted hmac t none code now user h = absurd (cc)
conclude→Accepted hmac t (some u) none now user h = absurd (cc)
conclude→Accepted hmac t (some u) (some c) now user h = (ground arith, c, refl, ground arith)

Accepted→conclude :
    (hmac : Hmac) (t : TotpBackend) (pending : Option Bytes) (code : Option ℕ) (now : ℕ)
    (user : Bytes)
    → Accepted hmac t pending code now user
    → conclude hmac t pending code now ≡ allow user
unfolding conclude
Accepted→conclude hmac t none code now user (p, c, q, ok) = absurd (cc)
Accepted→conclude hmac t (some u) none now user (p, c, q, ok) = absurd (cc)
Accepted→conclude hmac t (some u) (some d) now user (p, c, q, ok) = ground arith

-- Round two answers `Allow` exactly if the first factor named the user in round one and the first
-- response is a number that `verify_at` accepts for the secret of that user, or for the empty
-- secret where the user has none.
pub complete-allow :
    (hmac : Hmac) (t : TotpBackend) (resp : ChallengeResponse) (now : ℕ) (user : Bytes)
    → (complete hmac t resp now ≡ allow user) ↔ (
        (resp.state.pending_user ≡ some user)
        × (code : ℕ) × (response_code resp ≡ some code)
        × (verify_at hmac (unwrap_or (t.secret_for user) []) code now ≡ true))
unfolding complete
complete-allow hmac t resp now user = (
  conclude→Accepted hmac t resp.state.pending_user (response_code resp) now user,
  Accepted→conclude hmac t resp.state.pending_user (response_code resp) now user,
)
