-- ===== src/Server/Transport/Served.antt =====
-- Which requests open a channel, and what the others see.
use quish.Base.{
  ℕ, ◌+◌, ◌≤◌, ◌<◌, ◌≡◌, refl, sym, ◌∙◌, ◌≢◌, ◌↔◌, true, Option, none, some, arith, ◌>>=◌,
  unwrap_or,
}
use quish.Base.Text.{Bytes}
use quish.Proto.Frame.{Codec}
use quish.Proto.Message.{ChallengeAnswer, version_supported, decode_header}
use quish.Auth.Types.{Base64}
use quish.Server.RateLimit.{IpAddr}
use quish.Server.Transport.{
  AuthOutcome, allowed, denied, challenged, Incoming, is_quish, gate, Counters, conclude,
  handle_request, privsep_authenticate,
}

conclude_served :
    (ip : IpAddr) (now : ℕ) (o : Option AuthOutcome) (k : Counters)
    → ((conclude ip now (unwrap_or o denied) k).0.1 ≡ true) ↔ (o ≡ some allowed)
unfolding conclude
conclude_served ip now none k = (λ h. absurd (cc), λ h. absurd (cc))
conclude_served ip now (some allowed) k = (λ h. refl, λ h. refl)
conclude_served ip now (some denied) k = (λ h. absurd (cc), λ h. absurd (cc))
conclude_served ip now (some (challenged c)) k = (λ h. absurd (cc), λ h. absurd (cc))

module _ (base64 : Base64) (postcard : Codec ChallengeAnswer) (path : Bytes)
    (max_auth_fails : ℕ) where
  -- A channel is served exactly to an extended CONNECT on the secret path, in this version of the
  -- protocol, on a connection below its cap of failures, for which the backend answered `Allow`
  -- in time to the credentials and the challenge answer of that very request.
  pub handle_request_served :
      (ip : IpAddr) (now : ℕ) (backend : Option Bytes → Option ChallengeAnswer → Option AuthOutcome)
      (req : Incoming) (k : Counters)
      → ((handle_request base64 postcard path max_auth_fails ip now backend req k).0.1 ≡ true) ↔ (
          (is_quish path req ≡ true)
          × (version_supported req.version ≡ true)
          × (k.conn_fails < max_auth_fails)
          × (backend req.authorization
                (req.challenge_response >>= λ v. decode_header base64 postcard v)
              ≡ some allowed))
  unfolding handle_request gate
  handle_request_served ip now backend req k =
      let answer = req.challenge_response >>= λ v. decode_header base64 postcard v in
      let served = conclude_served ip now (backend req.authorization answer) k in
      (λ h. ground (arith, h, served), λ h. ground (arith, h, served))

floored :
    (reply : Option AuthOutcome) (fail_delay started finished : ℕ)
    → (privsep_authenticate reply fail_delay started finished).0 ≢ allowed
    → finished ≤ started + fail_delay
    → (privsep_authenticate reply fail_delay started finished).1 ≡ started + fail_delay
unfolding privsep_authenticate
floored none fail_delay started finished v h = ground arith
floored (some allowed) fail_delay started finished v h = absurd (v refl)
floored (some denied) fail_delay started finished v h = ground arith
floored (some (challenged c)) fail_delay started finished v h = ground arith

-- Two attempts that start at the same time and are denied or challenged return at the same time,
-- the floor, whatever the monitor replied, if it did so by then.
pub privsep_authenticate_floor :
    (reply other : Option AuthOutcome) (fail_delay started finished finished' : ℕ)
    → (privsep_authenticate reply fail_delay started finished).0 ≢ allowed
    → (privsep_authenticate other fail_delay started finished').0 ≢ allowed
    → finished ≤ started + fail_delay
    → finished' ≤ started + fail_delay
    → ((privsep_authenticate reply fail_delay started finished).1 ≡ started + fail_delay)
      × ((privsep_authenticate reply fail_delay started finished).1
          ≡ (privsep_authenticate other fail_delay started finished').1)
privsep_authenticate_floor reply other fail_delay started finished finished' v w h h' =
    let p = floored reply fail_delay started finished v h in
    let q = floored other fail_delay started finished' w h' in (p, p ∙ sym q)
