-- ===== src/Auth/Totp/Tests.antt =====
-- Tests of the one-time codes.
use quish.Base.{ℕ, ◌+◌, ◌/◌, ◌≤◌, ◌≡◌, ◌↔◌, refl, true, false, none, some, [], ◌∷◌}
use quish.Base.Text.{Bytes, codes, trim, parse_u32}
use quish.Samples.{short_hmac}
use quish.Auth.Types.{
  Credentials, password, ChallengeResponse, ConnInfo, allow, deny, AuthBackend, is_password,
}
use quish.Auth.Totp.{
  hotp_offset, counter_bytes, truncate, hotp, verify_at, step_secs, current_code, TotpBackend, new,
  response_code, complete, authenticate,
}
use quish.Auth.Totp.Rounds.{seen, asked, authenticate_uniform}
use quish.Auth.Totp.Window.{verify_at_iff}
use quish.Auth.Totp.Unenrolled.{complete_unenrolled}

abbrev by_name : Bytes → AuthBackend
by_name user = record { supports = is_password; authenticate = λ conn creds. allow user }

abbrev nobody : AuthBackend
nobody = record { supports = is_password; authenticate = λ conn creds. deny }

abbrev backend : TotpBackend
backend = new (by_name (codes "eve")) (λ user. none)

abbrev conn : ConnInfo
conn = record { peer_addr = codes "10.0.0.1:4"; channel_binding = []; challenge = none }

abbrev creds : Credentials
creds = password (codes "eve") (codes "pw")

-- The response of a user who has no secret.
abbrev response : ChallengeResponse
response = record {
  state = record { token = codes "t"; pending_user = some (codes "eve") };
  responses = codes " 752069" ∷ [];
}

authenticate_uniform_example :
    (seen (
        authenticate short_hmac
          (record backend { inner = by_name (codes "eve") })
          (codes "t")
          59
          conn
          creds)
      ≡ seen
          (authenticate short_hmac (record backend { inner = nobody }) (codes "t") 59 conn creds))
    × (seen (
          authenticate short_hmac
            (record backend { inner = by_name (codes "eve") })
            (codes "t")
            59
            conn
            creds)
        ≡ asked (codes "t") (record { message = backend.prompt; echo = false } ∷ []))
authenticate_uniform_example =
    authenticate_uniform short_hmac backend (by_name (codes "eve")) nobody (codes "t") 59 conn creds
      creds refl

complete_unenrolled_example : complete short_hmac backend response 59 ≡ allow (codes "eve")
unfolding new response_code current_code hotp truncate hotp_offset counter_bytes parse_u32 trim
complete_unenrolled_example =
    complete_unenrolled short_hmac backend response 59 (codes "eve") refl refl refl

verify_at_iff_example : (verify_at short_hmac (codes "k") 752069 59 ≡ true) ↔ (
    (c : ℕ) × (c ≤ 59 / step_secs + 1)
    × (59 / step_secs ≤ c + 1)
    × (hotp short_hmac (codes "k") c ≡ 752069))
verify_at_iff_example = verify_at_iff short_hmac (codes "k") 752069 59

-- The example of RFC 4226, section 5.4.
abbrev rfc_digest : Bytes
rfc_digest =
    0x1f ∷ 0x86 ∷ 0x98 ∷ 0x69 ∷ 0x0e ∷ 0x02 ∷ 0xca ∷ 0x16 ∷ 0x61 ∷ 0x85 ∷ 0x50 ∷ 0xef ∷ 0x7f ∷ 0x19
    ∷ 0xda ∷ 0x8e ∷ 0x94 ∷ 0x5b ∷ 0x55 ∷ 0x5a ∷ []

truncate_rfc : truncate rfc_digest ≡ 0x50ef7f19
unfolding truncate hotp_offset
truncate_rfc = refl
