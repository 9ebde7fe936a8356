-- ===== src/Auth/Totp/Unenrolled.antt =====
-- What `complete` of quish-auth/src/totp.rs does for a user whose first factor passed and who has
-- no TOTP secret. Its comment says that no real code matches the empty key.
use quish.Base.{ℕ, ◌≡◌, refl, none, some, [], arith}
use quish.Base.Text.{Bytes}
use quish.Auth.Types.{ChallengeResponse, allow}
use quish.Auth.Totp.{Hmac, TotpBackend, response_code, current_code, complete}
use quish.Auth.Totp.Rounds.{complete-allow}
use quish.Auth.Totp.Window.{verify_at_iff}

-- A user whom the first factor named and who has no secret is let in by the code of the empty key
-- at that time.
pub complete_unenrolled :
    (hmac : Hmac) (t : TotpBackend) (resp : ChallengeResponse) (now : ℕ) (user : Bytes)
    → resp.state.pending_user ≡ some user
    → t.secret_for user ≡ none
    → response_code resp ≡ some (current_code hmac [] now)
    → complete hmac t resp now ≡ allow user
unfolding current_code
complete_unenrolled hmac t resp now user pending unenrolled code =
    (complete-allow hmac t resp now user).1 (
      pending,
      _,
      code,
      rw unenrolled ((verify_at_iff hmac [] _ now).1 (_, omega arith, omega arith, refl)),
    )
