-- ===== src/Auth/Registry/Verdicts.antt =====
-- What `Registry::verdict` and `Registry::authenticate` return.
use quish.Base.{
  ◌≡◌, refl, ap, ◌↔◌, ◌⊎◌, inl, inr, true, false, Option, some, List, [], ◌∷◌, ◌++◌, arith,
  Bool-cases, Option-cases, All,
}
use quish.Base.Text.{Bytes}
use quish.Proto.Frame.{Codec}
use quish.Auth.Types.{
  Base64, Token, Credentials, ConnInfo, Verdict, allow, challenge, deny, AuthBackend,
}
use quish.Auth.Header.{parse_authorization}
use quish.Auth.Registry.{UserPolicy, permits, Registry, dispatch, apply_policy, verdict}

abbrev pub Unsupported : Credentials → List AuthBackend → Type 0
Unsupported creds = All (λ b. b.supports creds ≡ false)

-- The first backend that supports the credential decides alone; without one the answer is `Deny`.
pub dispatch_first :
    (bs : List AuthBackend) (creds : Credentials) (conn : ConnInfo)
    → ((before : List AuthBackend) × (b : AuthBackend) × (after : List AuthBackend) × (bs
          ≡ before ++ b ∷ after)
        × Unsupported creds before
        × (b.supports creds ≡ true)
        × (dispatch bs creds conn ≡ b.authenticate conn creds))
      ⊎ (Unsupported creds bs × (dispatch bs creds conn ≡ deny))
unfolding dispatch
dispatch_first [] creds conn = inr (tt, refl)
dispatch_first (b ∷ bs) creds conn = elim (Bool-cases (b.supports creds)) [
  | inl e ↦ inl ([], b, bs, refl, tt, e, rw e)
  | inr e ↦ elim (dispatch_first bs creds conn) [
    | inl (before, c, after, split, none_before, supported, d) ↦
        inl (b ∷ before, c, after, ap (λ l. b ∷ l) split, (e, none_before), supported, rw e d)
    | inr (unsupported, d) ↦ inr ((e, unsupported), rw e d)
  ]
]

apply_policy-allow :
    (p : UserPolicy) (v : Verdict) (user : Bytes)
    → apply_policy p v ≡ allow user
    → (v ≡ allow user) × (permits p user ≡ true)
unfolding apply_policy
apply_policy-allow p (allow u) user h = ground arith
apply_policy-allow p (challenge s ps) user h = absurd (cc)
apply_policy-allow p deny user h = absurd (cc)

module _ (base64 : Base64) (postcard : Codec Token) where
  -- A user is let in exactly if the header parses to a credential for which the backends return
  -- `Allow` with that name, and the policy permits the name.
  pub verdict-allow :
      (reg : Registry) (header : Option Bytes) (conn : ConnInfo) (user : Bytes)
      → (verdict base64 postcard reg header conn ≡ allow user) ↔ (
          (creds : Credentials) × (parse_authorization base64 postcard header ≡ some creds)
          × (dispatch reg.backends creds conn ≡ allow user)
          × (permits reg.policy user ≡ true))
  unfolding verdict
  verdict-allow reg header conn user = (
    λ h. elim (Option-cases (parse_authorization base64 postcard header)) [
      | inl e ↦ absurd (cc (rw (e, verdict) at h))
      | inr (creds, e) ↦
          let (d, permitted) =
            apply_policy-allow reg.policy (dispatch reg.backends creds conn) user
              (rw (e, verdict) at h) in
          (creds, e, d, permitted)
    ],
    λ h. let (creds, e, d, permitted) = h in rw (e, verdict) (rw d (rw permitted)),
  )
