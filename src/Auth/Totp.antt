-- ===== src/Auth/Totp.antt =====
-- quish-auth/src/totp.rs: one-time codes (RFC 4226 and 6238) and the two-round backend.
-- The clock and the random token are arguments of each attempt.
pub mod Window
pub mod Rounds
pub mod Unenrolled
mod Tests
use Prim.Native.Nat.{bit_or}
use quish.Base.{
  ℕ, zero, suc, ◌+◌, ◌-◌, ◌*◌, ◌/◌, ◌%◌, ◌^◌, ◌≤◌, ◌<◌, min, ◌≡◌, refl, sym, ap, ◌∙◌, ◌≢◌, ◌↔◌, ◌⊎◌,
  inl, inr, Bool, true, false, not, ◌&&◌, ◌||◌, Option, none, some, List, [], ◌∷◌, ◌++◌, map,
  reverse, arith, ltb, leb, ◌==◌, if◌then◌else◌, ltb→lt, lt→ltb, ltb→ge, ge→ltb, leb→le, ==_iff,
  ==_refl, Bool-cases, Option-cases, ◌>>=◌, unwrap_or, is_some, length, get_elem?, get_or, take,
  drop, any, all, retain, All, length-append, take-append_length, drop-append_length,
  take-append-drop, take-append_le, drop-append_le, length-take, length-drop,
}
use quish.Base.Text.{Bytes, codes, trim, parse_u32}
use quish.Auth.Types.{
  Credentials, Prompt, ChallengeState, ChallengeResponse, ConnInfo, Verdict, allow, challenge, deny,
  AuthBackend,
}

-- HMAC-SHA1 of the hmac and sha1 crates: 20 bytes for every key and message.
pub record Hmac : Type 0 where
  pub sha1 : Bytes → Bytes → Bytes
  pub sha1_length : (key message : Bytes) → length (sha1 key message) ≡ 20

-- `STEP_SECS` and `10u32.pow(DIGITS)`; `SKEW_STEPS` is 1.
abbrev pub step_secs : ℕ
step_secs = 30

abbrev pub code_range : ℕ
code_range = 10 ^ 6

-- `u64::to_be_bytes`.
pub counter_bytes : ℕ → Bytes
counter_bytes n =
    n / 2 ^ 56 % 256
    ∷ n / 2 ^ 48 % 256
    ∷ n / 2 ^ 40 % 256
    ∷ n / 2 ^ 32 % 256
    ∷ n / 2 ^ 24 % 256
    ∷ n / 2 ^ 16 % 256
    ∷ n / 2 ^ 8 % 256
    ∷ n % 256
    ∷ []

-- `hs[hs.len() - 1] & 0x0f`. An index out of range would panic; `Window` shows that none is.
pub hotp_offset : Bytes → ℕ
hotp_offset hs = get_or hs (length hs - 1) 0 % 16

pub truncate : Bytes → ℕ
unfolding hotp_offset
truncate hs =
    let o = hotp_offset hs in
    bit_or
      (bit_or (bit_or (get_or hs o 0 % 128 * 2 ^ 24) (get_or hs (o + 1) 0 * 2 ^ 16))
        (get_or hs (o + 2) 0 * 2 ^ 8))
      (get_or hs (o + 3) 0)

-- `step - 1 ..= step + 1` in `i64`, less the negative ones. `unix_secs / 30` fits an `i64`.
pub counters : ℕ → List ℕ
counters zero = 0 ∷ 1 ∷ []
counters (suc s) = s ∷ suc s ∷ suc (suc s) ∷ []

module _ (hmac : Hmac) where
  pub hotp : Bytes → ℕ → ℕ
  unfolding counter_bytes truncate
  hotp secret counter = truncate (hmac.sha1 secret (counter_bytes counter)) % code_range

  pub verify_at : Bytes → ℕ → ℕ → Bool
  unfolding hotp counters
  verify_at secret code unix_secs =
      any (λ c. hotp secret c == code) (counters (unix_secs / step_secs))

  pub current_code : Bytes → ℕ → ℕ
  current_code secret now = hotp secret (now / step_secs)

pub record TotpBackend : Type 0 where
  pub inner : AuthBackend
  pub secret_for : Bytes → Option Bytes
  pub prompt : Bytes

pub new : AuthBackend → (Bytes → Option Bytes) → TotpBackend
new first_factor secret_for = record {
  inner = first_factor;
  secret_for = secret_for;
  prompt = codes "TOTP code: ";
}

pub open_challenge : TotpBackend → Bytes → Option Bytes → Verdict
open_challenge t new_token pending_user =
    challenge (record { token = new_token; pending_user = pending_user })
      (record { message = t.prompt; echo = false } ∷ [])

abbrev pub first {ℓ} : {A : Type ℓ} → List A → Option A
first [] = none
first (x ∷ xs) = some x

-- The code that a response carries, if it is a number.
pub response_code : ChallengeResponse → Option ℕ
response_code resp = first resp.responses >>= λ c. parse_u32 (trim c)

-- `pending_user` of the match in `authenticate`.
pub pending_of : Verdict → Option Bytes
pending_of (allow user) = some user
pending_of (challenge s ps) = none
pending_of deny = none

module _ (hmac : Hmac) where
  -- The body of `complete`, over the pending user and the number that the response carries.
  pub conclude : TotpBackend → Option Bytes → Option ℕ → ℕ → Verdict
  conclude t pending_user code now_unix =
      let secret = unwrap_or (pending_user >>= t.secret_for) [] in
      let code_ok = unwrap_or (code >>= λ c. some (verify_at hmac secret c now_unix)) false in
      elim pending_user [ some user ↦ if code_ok then allow user else deny | none ↦ deny ]

  pub complete : TotpBackend → ChallengeResponse → ℕ → Verdict
  complete t resp now_unix = conclude t resp.state.pending_user (response_code resp) now_unix

  pub authenticate : TotpBackend → Bytes → ℕ → ConnInfo → Credentials → Verdict
  authenticate t new_token now_unix conn creds = elim conn.challenge [
    | some resp ↦ complete t resp now_unix
    | none ↦ open_challenge t new_token (pending_of (t.inner.authenticate conn creds))
  ]

  pub totp_backend : TotpBackend → Bytes → ℕ → AuthBackend
  totp_backend t new_token now_unix = record {
    supports = t.inner.supports;
    authenticate = authenticate t new_token now_unix;
  }
