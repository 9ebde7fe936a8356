-- ===== src/Auth/Registry/Tests.antt =====
-- Tests of the registry.
use quish.Base.{◌*◌, ◌^◌, ◌≡◌, refl, ◌↔◌, true, false, none, some, [], ◌∷◌}
use quish.Base.Text.{codes}
use quish.Samples.{unary_base64, token_codec}
use quish.Auth.Types.{Credentials, ConnInfo, allow}
use quish.Auth.Header.{parse_authorization}
use quish.Auth.Registry.{UserPolicy, permits, Registry, dispatch, verdict, dev_insecure_backend}
use quish.Auth.Registry.Verdicts.{verdict-allow}

abbrev policy : UserPolicy
policy = record { allow_users = codes "ann" ∷ codes "bob" ∷ []; deny_users = codes "bob" ∷ [] }

abbrev registry : Registry
registry = record {
  backends = dev_insecure_backend (codes "bob") ∷ dev_insecure_backend (codes "ann") ∷ [];
  fail_delay = 2 * 10 ^ 9;
  policy = policy;
}

abbrev conn : ConnInfo
conn = record { peer_addr = codes "10.0.0.1:4"; channel_binding = []; challenge = none }

permits_deny_first : permits policy (codes "bob") ≡ false
unfolding permits
permits_deny_first = refl

verdict-allow_example :
    (verdict unary_base64 token_codec registry (some (codes "Basic AB")) conn ≡ allow (codes "bob"))
    ↔ ((creds : Credentials) × (parse_authorization unary_base64 token_codec
            (some (codes "Basic AB"))
          ≡ some creds)
        × (dispatch registry.backends creds conn ≡ allow (codes "bob"))
        × (permits registry.policy (codes "bob") ≡ true))
verdict-allow_example =
    verdict-allow unary_base64 token_codec registry (some (codes "Basic AB")) conn (codes "bob")
