-- ===== src/Auth/Header/Tests.antt =====
-- Tests of the `Authorization` header.
use quish.Base.{◌≡◌, refl, none, some}
use quish.Base.Text.{codes}
use quish.Samples.{unary_base64, token_codec}
use quish.Auth.Header.{parse_authorization}

parse_authorization_digest :
    parse_authorization unary_base64 token_codec (some (codes "Digest x")) ≡ none
unfolding parse_authorization
parse_authorization_digest = refl
